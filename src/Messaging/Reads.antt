-- ===== src/Messaging/Reads.antt =====
-- apps/messaging/views.py, `ConversationMarkReadView` and the filter `unread` of `ConversationListView`;
-- apps/messaging/serializers.py, `get_unread`; apps/messaging/consumers.py, who may open a conversation.
use unified_communication_ba.Common.{
  ℕ, Bool, true, false, ◌&&◌, Option, none, some, List, [], ◌∷◌, ◌++◌, ◌==◌, nat_eq, ltb, first,
  any, select, update_where, if◌then◌else◌,
}
use unified_communication_ba.Models.{User}
use unified_communication_ba.Access.{is_super_admin}
use unified_communication_ba.Messaging.Defs.{Conversation, ReadState, Store}

unfoldable pub has_read_state : ℕ → ℕ → ReadState → Bool
has_read_state conversation user r = r.conversation == conversation && r.user == user

-- `next((r for r in c.read_states.all() if r.user_id == user.id), None)`
unfoldable pub read_state_of : ℕ → ℕ → List ReadState → Option ReadState
unfolding has_read_state first
read_state_of conversation user = first (has_read_state conversation user)

-- The last message is newer than what the user has read.
abbrev pub newer_than : Option ℕ → Option ReadState → Bool
newer_than none r = false
newer_than (some at) none = true
newer_than (some at) (some r) = ltb r.last_read_at at

unfoldable pub is_unread : List ReadState → ℕ → Conversation → Bool
unfolding read_state_of
is_unread states user c = newer_than c.last_message_at (read_state_of c.id user states)

-- The ids that `unread=true` keeps.
unfoldable pub unread_conversations : List ReadState → ℕ → List Conversation → List Conversation
unfolding is_unread select
unread_conversations states user = select (is_unread states user)

-- `update_or_create(conversation=..., user=..., defaults={"last_read_at": now})`
unfoldable pub put_read_state : ℕ → ℕ → ℕ → List ReadState → List ReadState
unfolding has_read_state any update_where
put_read_state conversation user now states =
    if any (has_read_state conversation user) states
    then update_where (has_read_state conversation user) (λ r. record r { last_read_at = now })
        states
    else states ++ (record { conversation = conversation; user = user; last_read_at = now }) ∷ []

-- `Conversation.objects.filter(id=conversation_id, tenant=tenant).exists()`
unfoldable pub owns_conversation : ℕ → ℕ → List Conversation → Bool
unfolding any
owns_conversation conversation tenant =
    any (λ (c : Conversation). c.id == conversation && c.tenant == tenant)

-- `none` is the answer 404.
unfoldable pub mark_read : ℕ → ℕ → ℕ → ℕ → Store → Option Store
unfolding owns_conversation put_read_state
mark_read tenant user conversation now s =
    if owns_conversation conversation tenant s.threads.conversations
    then some (record s { read_states = put_read_state conversation user now s.read_states })
    else none

abbrev pub owns_of : Option ℕ → ℕ → List Conversation → Bool
owns_of none conversation cs = false
owns_of (some tenant) conversation cs = owns_conversation conversation tenant cs

-- `_user_can_access_conversation`
unfoldable pub can_access_conversation : User → ℕ → List Conversation → Bool
unfolding is_super_admin any owns_conversation
can_access_conversation u conversation cs =
    if is_super_admin u
    then any (λ (c : Conversation). c.id == conversation) cs
    else owns_of u.tenant conversation cs
