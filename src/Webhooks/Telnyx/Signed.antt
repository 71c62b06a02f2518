-- ===== src/Webhooks/Telnyx/Signed.antt =====
-- `TelnyxWebhookView.post` (apps/webhooks/views.py): signed requests, and the log.
use mathlib.Core.Path.{subst}
use mathlib.Core.Option.{some-injective}
use unified_communication_ba.Common.{
  ◌+◌, ◌≡◌, ◌↔◌, ◌⊎◌, none, nat_eq, list_eq, nonempty, inl, inr, refl, sym, ap, Bool, true, Option,
  some, List, [], ◌∷◌, ◌++◌, Text, codes, arith, Bool-cases, Option-cases,
}
use unified_communication_ba.Json.{Json, null, bool, int, float, str, arr, obj, Fields, str_of}
use unified_communication_ba.Messaging.{Store, Directory, Outside}
use unified_communication_ba.Messaging.Sound.{IsSound}
use unified_communication_ba.Messaging.Kept.{IsSound-grow}
use unified_communication_ba.Webhooks.FreeSwitch.{WebhookLog}
use unified_communication_ba.Webhooks.Telnyx.Payload.{
  dict_or_empty, data_of, event_of, message_of_event,
}
use unified_communication_ba.Webhooks.Telnyx.Post.{
  header, Request, Hooks, TelnyxResponse, invalid_signature, accepted, verify_signature,
  handle_event, telnyx_log, log_event, accept, telnyx_post,
}
use unified_communication_ba.Webhooks.Telnyx.Updated.{handle_status_update-IsSound}
use unified_communication_ba.Webhooks.Telnyx.Stored.{handle_inbound_message-IsSound}
use unified_communication_ba.Webhooks.Telnyx.Handled.{HandledAs, handle_event-HandledAs}

module _ (w : Outside) (dir : Directory) where
  -- An event that was handled and logged as it came.
  pub record Logged (envelope : Fields) (h : Hooks) (r : TelnyxResponse) (h' : Hooks) : Type 0 where
    pub handled : Store
    pub log : WebhookLog
    pub effect :
        HandledAs w dir
          (event_of (data_of envelope))
          (message_of_event (data_of envelope))
          h.store
          handled
    pub response : r ≡ accepted (event_of (data_of envelope))
    pub store : h'.store ≡ record handled { next_id = handled.next_id + 1 }
    pub logs : h'.logs ≡ h.logs ++ log ∷ []
    pub provider : log.provider ≡ codes "telnyx"
    pub event_type : log.event_type ≡ str_of w.repr (event_of (data_of envelope))
    pub payload : log.payload ≡ obj envelope
    pub expires_at : log.expires_at ≡ w.now + 172800

  logged_as :
      {r r' : TelnyxResponse} {h h' : Hooks}
      → ◌≡◌ {A = Option (TelnyxResponse × Hooks)} (some (r', h')) (some (r, h))
      → (r ≡ r') × (h ≡ h')
  logged_as e =
      let q = some-injective _ _ e in
      (
        sym (ap (λ (x : TelnyxResponse × Hooks). x.0) q),
        sym (ap (λ (x : TelnyxResponse × Hooks). x.1) q),
      )

  log_event-some :
      (envelope : Fields) (event : Json) (logs : List WebhookLog) (s : Store) (r : TelnyxResponse)
      (h' : Hooks)
      → log_event w envelope event logs (some s) ≡ some (r, h')
      → (r ≡ accepted event)
        × (h' ≡ record {
          store = record s { next_id = s.next_id + 1 };
          logs = logs ++ telnyx_log w envelope event s.next_id ∷ [];
        })
  unfolding log_event
  log_event-some envelope null logs s r h' h = absurd cc
  log_event-some envelope (bool b) logs s r h' h = logged_as h
  log_event-some envelope (int n) logs s r h' h = logged_as h
  log_event-some envelope (float t) logs s r h' h = logged_as h
  log_event-some envelope (str t) logs s r h' h = logged_as h
  log_event-some envelope (arr xs) logs s r h' h = logged_as h
  log_event-some envelope (obj fs) logs s r h' h = logged_as h

  accept-Logged :
      (envelope : Fields) (h h' : Hooks) (r : TelnyxResponse)
      → accept w dir envelope h ≡ some (r, h')
      → Logged envelope h r h'
  unfolding accept telnyx_log
  accept-Logged envelope h h' r k =
      elim (Option-cases (handle_event w dir (data_of envelope) h.store)) [
        | inl e ↦ let q = rw (e, log_event) at k in absurd cc
        | inr (s, e) ↦
            let (f, g) =
              log_event-some envelope (event_of (data_of envelope)) h.logs s r h' (rw e at k) in
            record {
              handled = s;
              log = telnyx_log w envelope (event_of (data_of envelope)) s.next_id;
              effect = handle_event-HandledAs w dir (data_of envelope) h.store s e;
              response = f;
              store = ap (λ (x : Hooks). x.store) g;
              logs = ap (λ (x : Hooks). x.logs) g;
              provider = refl;
              event_type = refl;
              payload = refl;
              expires_at = refl;
            }
      ]

  HandledAs-IsSound :
      (event : Json) (message : Fields) (s s' : Store)
      → HandledAs w dir event message s s'
      → IsSound s
      → IsSound s'
  HandledAs-IsSound event message s s' (inl (e, h)) sound =
      handle_status_update-IsSound w message s s' h sound
  HandledAs-IsSound event message s s' (inr (inl (e, h))) sound =
      handle_inbound_message-IsSound w dir message s s' sound h
  HandledAs-IsSound event message s s' (inr (inr (e, f, g, h))) sound = subst IsSound (sym h) sound

  module _ (verify : Text → Text → Text → Bool) (public_key : Text) where
    -- A signature of the time and the body of a request that the key verifies.
    pub record IsSigned (q : Request) : Type 0 where
      pub signature : Text
      pub timestamp : Text
      pub configured : nonempty public_key ≡ true
      pub has_signature : (q.signature ≡ some signature) × (nonempty signature ≡ true)
      pub has_timestamp : (q.timestamp ≡ some timestamp) × (nonempty timestamp ≡ true)
      pub verified : verify public_key signature (timestamp ++ codes "|" ++ q.body) ≡ true

    header-some : (o : Option Text) → nonempty (header o) ≡ true → o ≡ some (header o)
    header-some none h = absurd cc
    header-some (some s) h = refl

    verify_signature-IsSigned :
        (q : Request) → (verify_signature verify public_key q ≡ true) ↔ IsSigned q
    unfolding verify_signature
    verify_signature-IsSigned q = (
      λ e. record {
        signature = header q.signature;
        timestamp = header q.timestamp;
        configured = ground arith;
        has_signature =
            let n : nonempty (header q.signature) ≡ true = ground arith in
            (header-some q.signature n, n);
        has_timestamp =
            let n : nonempty (header q.timestamp) ≡ true = ground arith in
            (header-some q.timestamp n, n);
        verified = ground arith;
      },
      λ k.
          rw
            (
              k.has_signature.0, k.has_timestamp.0, k.configured, k.has_signature.1,
              k.has_timestamp.1, k.verified,
            )
            refl,
    )

    -- A request that the view does not fail on either is not signed by the key, is answered so, and changes
    -- nothing, or is signed by it. Its event then has the effect of its type, and is logged once, with its
    -- payload as it came (the empty object for a body that is none) and an expiry after 48 hours.
    pub telnyx_post-Logged :
        (q : Request) (h h' : Hooks) (r : TelnyxResponse)
        → telnyx_post verify public_key w dir q h ≡ some (r, h')
        → ((¬ IsSigned q) × (r ≡ invalid_signature) × (h' ≡ h))
          ⊎ (IsSigned q × Logged (dict_or_empty q.json) h r h')
    unfolding telnyx_post
    telnyx_post-Logged q h h' r k = elim (Bool-cases (verify_signature verify public_key q)) [
      | inr e ↦
          let (a, b) = logged_as (rw e at k) in
          inl (λ n. let g = (verify_signature-IsSigned q).1 n in absurd cc, a, b)
      | inl e ↦ inr (
        (verify_signature-IsSigned q).0 e,
        accept-Logged (dict_or_empty q.json) h h' r (rw e at k),
      )
    ]

    pub telnyx_post-IsSound :
        (q : Request) (h h' : Hooks) (r : TelnyxResponse)
        → telnyx_post verify public_key w dir q h ≡ some (r, h')
        → IsSound h.store
        → IsSound h'.store
    telnyx_post-IsSound q h h' r k sound = elim (telnyx_post-Logged q h h' r k) [
      | inl (e, f, g) ↦ subst (λ (x : Hooks). IsSound x.store) (sym g) sound
      | inr (e, l) ↦
          let t = HandledAs-IsSound _ _ h.store l.handled l.effect sound in
          subst IsSound (sym l.store) (
            IsSound-grow l.handled (record l.handled { next_id = l.handled.next_id + 1 }) refl
              (omega arith) t.fresh t)
    ]
