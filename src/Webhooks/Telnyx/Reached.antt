-- ===== src/Webhooks/Telnyx/Reached.antt =====
-- Sending, receiving and reading messages in any order, by any users and at any times.
use mathlib.Core.Option.{some-injective}
use mathlib.Core.Path.{subst}
use unified_communication_ba.Common.{ℕ, ◌≡◌, sym, inl, inr, Bool, Option, some, Text, Bool-cases}
use unified_communication_ba.Models.{Tenant, User}
use unified_communication_ba.Messaging.{
  Store, Directory, Outside, SendData, SendOutcome, SendResponse, send_message, mark_read,
  owns_conversation,
}
use unified_communication_ba.Messaging.Sound.{IsSound}
use unified_communication_ba.Messaging.Sent.{send_message-IsSound}
use unified_communication_ba.Messaging.Filing.{IsFiled}
use unified_communication_ba.Webhooks.Telnyx.Post.{Request, Hooks, TelnyxResponse, telnyx_post}
use unified_communication_ba.Webhooks.Telnyx.Placed.{send_message-IsFiled, HandledAs-IsFiled}
use unified_communication_ba.Webhooks.Telnyx.Signed.{telnyx_post-Logged, telnyx_post-IsSound}

-- One request that the views do not fail on.
pub data Step : Hooks → Hooks → Type 0 where
  send :
      (w : Outside) (sender : SendData → SendOutcome) (dir : Directory) (t : Tenant) (u : User)
      (o : Option SendData) (r : SendResponse) (h : Hooks) (s : Store)
      → send_message w sender dir t u o h.store ≡ some (r, s)
      → Step h (record h { store = s })
  webhook :
      (w : Outside) (dir : Directory) (verify : Text → Text → Text → Bool) (public_key : Text)
      (q : Request) (r : TelnyxResponse) (h h' : Hooks)
      → telnyx_post verify public_key w dir q h ≡ some (r, h')
      → Step h h'
  read :
      (tenant user conversation now : ℕ) (h : Hooks) (s : Store)
      → mark_read tenant user conversation now h.store ≡ some s
      → Step h (record h { store = s })

pub data Reach (h : Hooks) : Hooks → Type 0 where
  here : Reach h h
  next : {g k : Hooks} → Reach h g → Step g k → Reach h k

mark_read-IsSound :
    (tenant user conversation now : ℕ) (s s' : Store)
    → mark_read tenant user conversation now s ≡ some s'
    → IsSound s
    → IsSound s'
unfolding mark_read
mark_read-IsSound tenant user conversation now s s' h sound =
    elim (Bool-cases (owns_conversation conversation tenant s.threads.conversations)) [
      | inr e ↦ let q = rw e at h in absurd cc
      | inl e ↦ subst IsSound (some-injective _ _ (rw e at h)) (record {
        fresh = sound.fresh;
        below = sound.below;
        distinct = sound.distinct;
        one_key = sound.one_key;
      })
    ]

Step-IsSound : {g h : Hooks} → Step g h → IsSound g.store → IsSound h.store
Step-IsSound (send w sender dir t u o r h s e) sound =
    send_message-IsSound w sender dir t u h.store o r s sound e
Step-IsSound (webhook w dir verify public_key q r h h' e) sound =
    telnyx_post-IsSound w dir verify public_key q h h' r e sound
Step-IsSound (read tenant user conversation now h s e) sound =
    mark_read-IsSound tenant user conversation now h.store s e sound

pub Reach-IsSound : {g h : Hooks} → IsSound g.store → Reach g h → IsSound h.store
Reach-IsSound sound here = sound
Reach-IsSound sound (next r s) = Step-IsSound s (Reach-IsSound sound r)

mark_read-IsFiled :
    (tenant user conversation now : ℕ) (s s' : Store)
    → mark_read tenant user conversation now s ≡ some s'
    → IsFiled s
    → IsFiled s'
unfolding mark_read
mark_read-IsFiled tenant user conversation now s s' h filed =
    elim (Bool-cases (owns_conversation conversation tenant s.threads.conversations)) [
      | inr e ↦ let q = rw e at h in absurd cc
      | inl e ↦
          subst IsFiled (some-injective _ _ (rw e at h))
            (record { each = filed.each; settled = filed.settled })
    ]

Step-IsFiled : {g h : Hooks} → Step g h → IsSound g.store → IsFiled g.store → IsFiled h.store
Step-IsFiled (send w sender dir t u o r h s e) sound filed =
    send_message-IsFiled w sender dir t u h.store s o r sound e filed
Step-IsFiled (webhook w dir verify public_key q r h h' e) sound filed =
    elim (telnyx_post-Logged w dir verify public_key q h h' r e) [
      | inl (a, b, c) ↦ subst (λ (x : Hooks). IsFiled x.store) (sym c) filed
      | inr (a, l) ↦
          let k = HandledAs-IsFiled w dir _ _ h.store l.handled l.effect sound filed in
          subst IsFiled (sym l.store) (record { each = k.each; settled = k.settled })
    ]
Step-IsFiled (read tenant user conversation now h s e) sound filed =
    mark_read-IsFiled tenant user conversation now h.store s e filed

-- Whatever requests to send, to receive and to read come in, in any order: in tables that are sound, where the
-- conversation of every message is stored with the tenant and the DID of the message and no message is left
-- queued, this stays so.
pub Reach-IsFiled : {g h : Hooks} → IsSound g.store → IsFiled g.store → Reach g h → IsFiled h.store
Reach-IsFiled sound filed here = filed
Reach-IsFiled sound filed (next r s) =
    Step-IsFiled s (Reach-IsSound sound r) (Reach-IsFiled sound filed r)
