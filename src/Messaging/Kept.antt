-- ===== src/Messaging/Kept.antt =====
-- Sending and reading messages: the tables stay sound.
use mathlib.Core.Path.{subst}
use mathlib.Core.Option.{some-injective}
use unified_communication_ba.Common.{
  In-update_where, In-update_where, ℕ, ◌≤◌, ◌≡◌, inl, inr, refl, sym, ap, ◌∙◌, some, List, [], ◌∷◌,
  Text, ◌==◌, nat_eq, arith, Option-cases,
}
use unified_communication_ba.Messaging.Defs.{
  Conversation, Message, Store, Directory, Outside, Fetched, answer, http_error, raises,
}
use unified_communication_ba.Messaging.Media.{store_media, download_message_media}
use unified_communication_ba.Messaging.Broadcast.{broadcast_message_event}
use unified_communication_ba.Messaging.Rows.{touch}
use unified_communication_ba.Messaging.Same.{IsFresh}
use unified_communication_ba.Messaging.Sound.{IsSound}

-- Tables with the same messages and later ids.
pub IsSound-grow :
    (s s' : Store)
    → s'.messages ≡ s.messages
    → s.next_id ≤ s'.next_id
    → IsFresh s'.threads
    → IsSound s
    → IsSound s'
IsSound-grow s s' e n fresh sound = record {
  fresh = fresh;
  below = λ m i. ground (arith, sound.below m (rw e at i));
  distinct = rw e sound.distinct;
  one_key = rw e sound.one_key;
}

pub touch-IsFresh : (id now : ℕ) (s : Store) → IsFresh s.threads → IsFresh (touch id now s).threads
unfolding touch
touch-IsFresh id now s fresh = record {
  conversations = λ c i.
      elim (In-update_where (λ (c : Conversation). c.id == id)
        (λ c. record c { last_message_at = some now }) c s.threads.conversations i) [
          | inl (d, j, h, e) ↦ rw e (fresh.conversations d j)
          | inr (j, h) ↦ fresh.conversations c j
        ];
  participants = fresh.participants;
}

-- A download only adds rows to the table of media.
pub record MediaOnly (s s' : Store) : Type 0 where
  pub rest : s' ≡ record s { media = s'.media; next_id = s'.next_id }
  pub later : s.next_id ≤ s'.next_id

MediaOnly-trans : {r s t : Store} → MediaOnly r s → MediaOnly s t → MediaOnly r t
MediaOnly-trans {r} {s} {t} a b = record {
  rest = b.rest ∙ ap (λ (x : Store). record x { media = t.media; next_id = t.next_id }) a.rest;
  later = omega (arith, a.later, b.later);
}

store_media-MediaOnly :
    (w : Outside) (m : ℕ) (url : Text) (f : Fetched) (s s' : Store)
    → store_media w m url f s ≡ some s'
    → MediaOnly s s'
unfolding store_media
store_media-MediaOnly w m url (answer header size) s s' h =
    subst (MediaOnly s) (some-injective _ _ h) (record { rest = refl; later = omega arith })
store_media-MediaOnly w m url http_error s s' h =
    subst (MediaOnly s) (some-injective _ _ h) (record { rest = refl; later = omega arith })
store_media-MediaOnly w m url raises s s' h = cc

pub download_message_media-MediaOnly :
    (w : Outside) (m : ℕ) (urls : List Text) (s s' : Store)
    → download_message_media w m urls s ≡ some s'
    → MediaOnly s s'
unfolding download_message_media
download_message_media-MediaOnly w m [] s s' h =
    subst (MediaOnly s) (some-injective _ _ h) (record { rest = refl; later = omega arith })
download_message_media-MediaOnly w m (url ∷ urls) s s' h =
    elim (Option-cases (store_media w m url (w.fetch url) s)) [
      | inl e ↦ let q = rw (e, download_message_media) at h in absurd cc
      | inr (t, e) ↦
          MediaOnly-trans (store_media-MediaOnly w m url (w.fetch url) s t e)
            (download_message_media-MediaOnly w m urls t s' (rw (e, download_message_media) at h))
    ]

MediaOnly-IsSound : {s s' : Store} → MediaOnly s s' → IsSound s → IsSound s'
MediaOnly-IsSound {s} {s'} o sound =
    IsSound-grow s s' (ap (λ (x : Store). x.messages) o.rest) o.later
      (subst IsFresh (sym (ap (λ (x : Store). x.threads) o.rest)) sound.fresh) sound

-- The end of sending and of receiving: the attachments, the time of the conversation, the events.
pub announced-IsSound :
    (w : Outside) (dir : Directory) (m : Message) (urls : List Text) (s t : Store)
    → download_message_media w m.id urls s ≡ some t
    → IsSound s
    → IsSound (broadcast_message_event w dir m (touch m.conversation w.now t))
unfolding broadcast_message_event touch
announced-IsSound w dir m urls s t h sound =
    let k = MediaOnly-IsSound (download_message_media-MediaOnly w m.id urls s t h) sound in
    IsSound-grow t (broadcast_message_event w dir m (touch m.conversation w.now t)) refl
      (omega arith) (touch-IsFresh m.conversation w.now t k.fresh) k
