-- ===== src/Messaging/Answered.antt =====
-- `SendMessageView.post` (apps/messaging/views.py), answer by answer.
use mathlib.Core.Path.{subst}
use mathlib.Core.Option.{some-injective}
use unified_communication_ba.Common.{
  ◌≡◌, ◌≢◌, true, false, ◌⊎◌, inl, inr, refl, sym, ap, ◌∙◌, Option, none, some, Text, codes,
  nonempty, ◌==◌, nat_eq, In, Bool-cases, Option-cases, nat_beq_iff,
}
use unified_communication_ba.Json.{Json, decimal}
use unified_communication_ba.Models.{Tenant, User}
use unified_communication_ba.Users.Features.{is_feature_enabled}
use unified_communication_ba.Messaging.Defs.{
  Conversation, Threads, Message, Store, Directory, Outside,
}
use unified_communication_ba.Messaging.Resolve.{resolve_conversation}
use unified_communication_ba.Messaging.Media.{download_message_media}
use unified_communication_ba.Messaging.Broadcast.{broadcast_message_event}
use unified_communication_ba.Messaging.Rows.{create_message, save_message, touch}
use unified_communication_ba.Messaging.Send.{
  SendData, SendOutcome, SendResponse, telnyx_response, http_status_error, request_error,
  other_error, new_outbound, sent_id, sent_message, failed_message, message_created,
  telnyx_rejected, telnyx_unreachable, feature_disabled, no_messaging_profile, invalid_request,
  did_of_other_tenant, respond, finish_send, mark_sent, after_send, send_in, send_valid,
  send_message,
}
use unified_communication_ba.Messaging.Sound.{IsSound, save_message-IsSound}
use unified_communication_ba.Messaging.Kept.{announced-IsSound}

-- The answer to a message that the provider `o` refuses or does not get, and what is written of it.
abbrev pub RefusedBy : SendOutcome → SendResponse → Option Text → Option Text → Type 0
RefusedBy (http_status_error status text) r code detail =
    (r ≡ telnyx_rejected text) × (code ≡ some (decimal status)) × (detail ≡ some text)
RefusedBy (request_error text) r code detail =
    (r ≡ telnyx_unreachable) × (code ≡ none) × (detail ≡ some text)
RefusedBy (telnyx_response j) r code detail = ⊥
RefusedBy other_error r code detail = ⊥

-- The provider takes the message and gives it the id.
abbrev pub TakenBy : SendOutcome → Json → Type 0
TakenBy (telnyx_response j) key = sent_id j ≡ some key
TakenBy (http_status_error status text) key = ⊥
TakenBy (request_error text) key = ⊥
TakenBy other_error key = ⊥

-- The outcome of a send to the provider, for the message `m` in the tables `s`.
module _ (w : Outside) (dir : Directory) (form : SendData) (m : Message) (s : Store) where
  -- The provider took the message.
  pub record Taken (o : SendOutcome) (r : SendResponse) (s' : Store) : Type 0 where
    pub key : Json
    pub taken : TakenBy o key
    pub saved : Store
    pub stored : Store
    pub save : save_message (sent_message w m key) s ≡ some saved
    pub download : download_message_media w m.id form.media_urls saved ≡ some stored
    pub response : r ≡ message_created (sent_message w m key)
    pub announced :
        s'
        ≡ broadcast_message_event w dir (sent_message w m key) (touch m.conversation w.now stored)

  -- The provider refused the message or was not reached.
  pub record NotTaken (o : SendOutcome) (r : SendResponse) (s' : Store) : Type 0 where
    pub code : Option Text
    pub detail : Option Text
    pub save : save_message (failed_message m code detail) s ≡ some s'
    pub refused : RefusedBy o r code detail

  respond-NotTaken :
      (p : SendOutcome) (code : Option Text) (detail : Option Text) (q r : SendResponse)
      (o : Option Store) (s' : Store)
      → RefusedBy p q code detail
      → save_message (failed_message m code detail) s ≡ o
      → respond q o ≡ some (r, s')
      → NotTaken p r s'
  respond-NotTaken p code detail q r none s' n e h = absurd cc
  respond-NotTaken p code detail q r (some t) s' n e h =
      let f = some-injective _ _ h in
      record {
        code = code;
        detail = detail;
        save = e ∙ ap some (ap (λ (x : SendResponse × Store). x.1) f);
        refused =
            subst (λ (x : SendResponse). RefusedBy p x code detail)
              (ap (λ (x : SendResponse × Store). x.0) f) n;
      }

  mark_sent-Taken :
      (o : SendOutcome) (key : Json) (r : SendResponse) (s' : Store)
      → TakenBy o key
      → mark_sent w dir form m s (some key) ≡ some (r, s')
      → Taken o r s'
  unfolding mark_sent finish_send
  mark_sent-Taken o key r s' k0 h = elim (Option-cases (save_message (sent_message w m key) s)) [
    | inl e ↦ let q = rw (e, mark_sent) at h in absurd cc
    | inr (t, e) ↦
        let k = rw (e, mark_sent) at h in
        elim (Option-cases (download_message_media w m.id form.media_urls t)) [
          | inl f ↦ let q = rw (f, finish_send) at k in absurd cc
          | inr (u, f) ↦
              let q = some-injective _ _ (rw (f, finish_send) at k) in
              record {
                key = key;
                taken = k0;
                saved = t;
                stored = u;
                save = e;
                download = f;
                response = sym (ap (λ (x : SendResponse × Store). x.0) q);
                announced = sym (ap (λ (x : SendResponse × Store). x.1) q);
              }
        ]
  ]

  mark_sent-cases :
      (j : Json) (key : Option Json) (r : SendResponse) (s' : Store)
      → sent_id j ≡ key
      → mark_sent w dir form m s key ≡ some (r, s')
      → Taken (telnyx_response j) r s'
  unfolding mark_sent
  mark_sent-cases j none r s' e h = absurd cc
  mark_sent-cases j (some key) r s' e h = mark_sent-Taken (telnyx_response j) key r s' e h

  pub after_send-cases :
      (o : SendOutcome) (r : SendResponse) (s' : Store)
      → m.error_code ≡ none
      → after_send w dir form m s o ≡ some (r, s')
      → NotTaken o r s' ⊎ Taken o r s'
  unfolding after_send
  after_send-cases (http_status_error code text) r s' n h = inl (
      respond-NotTaken (http_status_error code text) (some (decimal code)) (some text)
        (telnyx_rejected text) r _ s' (refl, refl, refl) refl h)
  after_send-cases (request_error text) r s' n h = inl (
      respond-NotTaken (request_error text) m.error_code (some text) telnyx_unreachable r _ s'
        (refl, n, refl) refl h)
  after_send-cases other_error r s' n h = absurd cc
  after_send-cases (telnyx_response j) r s' n h = inr (mark_sent-cases j (sent_id j) r s' refl h)

  pub outcome-IsSound :
      In m s.messages
      → IsSound s
      → (o : SendOutcome) (r : SendResponse) (s' : Store) → NotTaken o r s' ⊎ Taken o r s'
      → IsSound s'
  outcome-IsSound i sound o r s' (inl n) =
      save_message-IsSound (failed_message m n.code n.detail) s sound s' m n.save i refl
  outcome-IsSound i sound o r s' (inr t) = subst IsSound (sym t.announced) (
      announced-IsSound w dir (sent_message w m t.key) form.media_urls t.saved t.stored t.download
        (save_message-IsSound (sent_message w m t.key) s sound t.saved m t.save i refl))

-- The answers to a request that is not sent on, and why.
abbrev pub Refused : Tenant → Option SendData → SendResponse → Type 0
Refused t o feature_disabled = is_feature_enabled t (codes "messaging") ≡ false
Refused t o no_messaging_profile = nonempty t.telnyx_messaging_profile_id ≡ false
Refused t o invalid_request = o ≡ none
Refused t o did_of_other_tenant = (form : SendData) × (o ≡ some form) × (form.did.tenant ≢ t.id)
Refused t o (telnyx_rejected text) = ⊥
Refused t o telnyx_unreachable = ⊥
Refused t o (message_created m) = ⊥

-- What is asked for, and allowed.
abbrev pub Allowed : Tenant → Option SendData → SendData → Type 0
Allowed t o form =
    (o ≡ some form)
    × (is_feature_enabled t (codes "messaging") ≡ true)
    × (nonempty t.telnyx_messaging_profile_id ≡ true)
    × (form.did.tenant ≡ t.id)

module _ (w : Outside) (send : SendData → SendOutcome) (dir : Directory) (t : Tenant) (u : User)
    (s : Store) where
  -- A message that was created and sent on.
  pub record Attempt (form : SendData) (r : SendResponse) (s' : Store) : Type 0 where
    pub conversation : Conversation
    pub threads : Threads
    pub created : Store
    pub resolved :
        resolve_conversation dir.contacts w.now t.id form.did.id form.to_numbers s.threads
        ≡ some (conversation, threads)
    pub create :
        create_message
          (new_outbound w t u form conversation s.next_id)
          (record s { threads = threads })
        ≡ some created
    pub outcome :
        NotTaken w dir form
          (new_outbound w t u form conversation s.next_id)
          created
          (send form)
          r
          s'
        ⊎ Taken w dir form (new_outbound w t u form conversation s.next_id) created (send form) r s'

  send_in-Attempt :
      (form : SendData) (o : Option (Conversation × Threads)) (r : SendResponse) (s' : Store)
      → resolve_conversation dir.contacts w.now t.id form.did.id form.to_numbers s.threads ≡ o
      → send_in w send dir t u form s o ≡ some (r, s')
      → Attempt form r s'
  unfolding send_in
  send_in-Attempt form none r s' e h = absurd cc
  send_in-Attempt form (some (c, threads)) r s' e h =
      let m = new_outbound w t u form c s.next_id in
      elim (Option-cases (create_message m (record s { threads = threads }))) [
        | inl f ↦ let q = rw (f, send_in) at h in absurd cc
        | inr (x, f) ↦ record {
          conversation = c;
          threads = threads;
          created = x;
          resolved = e;
          create = f;
          outcome = after_send-cases w dir form m x (send form) r s' refl (rw (f, send_in) at h);
        }
      ]

  abbrev pub Answered : Option SendData → SendResponse → Store → Type 0
  Answered o r s' =
      (Refused t o r × (s' ≡ s)) ⊎ ((form : SendData) × Allowed t o form × Attempt form r s')

  refused :
      (o : Option SendData) (q r : SendResponse) (s' : Store)
      → Refused t o q
      → respond q (some s) ≡ some (r, s')
      → Answered o r s'
  refused o q r s' n h =
      let e = some-injective _ _ h in
      inl (
        subst (Refused t o) (ap (λ (x : SendResponse × Store). x.0) e) n,
        sym (ap (λ (x : SendResponse × Store). x.1) e),
      )

  send_valid-cases :
      (o : Option SendData) (r : SendResponse) (s' : Store)
      → is_feature_enabled t (codes "messaging") ≡ true
      → nonempty t.telnyx_messaging_profile_id ≡ true
      → send_valid w send dir t u o s ≡ some (r, s')
      → Answered o r s'
  unfolding send_valid
  send_valid-cases none r s' a b h = refused none invalid_request r s' refl h
  send_valid-cases (some form) r s' a b h = elim (Bool-cases (form.did.tenant == t.id)) [
    | inl e ↦ inr (
      form,
      (refl, a, b, (nat_beq_iff form.did.tenant t.id).0 e),
      send_in-Attempt form _ r s' refl (rw (e, send_valid) at h),
    )
    | inr e ↦
        let other : form.did.tenant ≢ t.id =
          λ f. let g = (nat_beq_iff form.did.tenant t.id).1 f in absurd cc in
        refused (some form) did_of_other_tenant r s' (form, refl, other) (rw (e, send_valid) at h)
  ]

  pub send_message-cases :
      (o : Option SendData) (r : SendResponse) (s' : Store)
      → send_message w send dir t u o s ≡ some (r, s')
      → Answered o r s'
  unfolding send_message
  send_message-cases o r s' h = elim (Bool-cases (is_feature_enabled t (codes "messaging"))) [
    | inr e ↦ refused o feature_disabled r s' e (rw (e, send_message) at h)
    | inl e ↦ elim (Bool-cases (nonempty t.telnyx_messaging_profile_id)) [
      | inr f ↦ refused o no_messaging_profile r s' f (rw (e, f, send_message) at h)
      | inl f ↦ send_valid-cases o r s' e f (rw (e, f, send_message) at h)
    ]
  ]
