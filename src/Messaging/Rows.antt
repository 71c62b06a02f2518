-- ===== src/Messaging/Rows.antt =====
-- Writing messages and conversations. The unique constraint on the provider's id (apps/messaging/models.py,
-- `Message.telnyx_message_id`) refuses a row: `none`.
use unified_communication_ba.Common.{
  ℕ, ◌+◌, Bool, false, not, ◌&&◌, Option, none, some, [], ◌∷◌, ◌++◌, Text, ◌==◌, nat_eq, list_eq,
  option_eq, any, update_where, if◌then◌else◌,
}
use unified_communication_ba.Messaging.Defs.{Conversation, Message, Store}

-- Another row has the provider's id.
abbrev pub taken_by : ℕ → Option Text → Message → Bool
taken_by id none m = false
taken_by id (some key) m = not (m.id == id) && m.telnyx_message_id == some key

-- `Message.objects.create(...)`
unfoldable pub create_message : Message → Store → Option Store
unfolding any
create_message m s =
    if any (taken_by m.id m.telnyx_message_id) s.messages
    then none
    else some (record s { messages = s.messages ++ m ∷ []; next_id = s.next_id + 1 })

-- `message.save(update_fields=[...])`
unfoldable pub save_message : Message → Store → Option Store
unfolding any update_where
save_message m s =
    if any (taken_by m.id m.telnyx_message_id) s.messages
    then none
    else some
        (record s { messages = update_where (λ (x : Message). x.id == m.id) (λ _. m) s.messages })

-- `conversation.last_message_at = now` and its `save`
unfoldable pub touch : ℕ → ℕ → Store → Store
unfolding update_where
touch id now s = record s {
  threads = record s.threads {
    conversations =
        update_where (λ (c : Conversation). c.id == id)
          (λ c. record c { last_message_at = some now }) s.threads.conversations;
  };
}
