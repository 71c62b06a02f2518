-- ===== src/Users/Assign/Rows.antt =====
-- What the views that assign resources do to the tables (apps/users/views.py), one change at a time.
use mathlib.Core.Path.{subst}
use mathlib.Core.Option.{some-injective}
use unified_communication_ba.Common.{
  ℕ, ◌≡◌, ◌⊎◌, inl, inr, refl, sym, ap, ◌∙◌, Bool, false, Option, none, some, List, [], ◌∷◌, Text,
  ◌==◌, nat_eq, list_eq, option_eq, any, select, In, In-append, In-select, Distinct, Distinct-key,
  Bool-cases,
}
use unified_communication_ba.Models.{User, FaxBox, Extension, Did, UserDid}
use unified_communication_ba.Users.Assign.Tables.{
  Accounts, is_of_other, join_tenant, release, give_extension, with_transport, has_did_row,
  grant_row, save_boxes, save_voicemail,
}
use unified_communication_ba.Users.Assign.Sound.{
  IsAssigned, ids-update_users, update-KeptUser, ids-update_extensions, update-KeptExtension,
  owner_kept, Kept-IsAssigned,
}
use unified_communication_ba.Users.Assign.Given.{
  Joined, join_tenant-Joined, ids-join_tenant, GivenRow, give-GivenRow, ids-give,
}

module _ (a : Accounts) (sound : IsAssigned a) where
  module _ (u : User) (e : Extension) (i : In u a.users) (j : In e a.extensions)
      (h : is_of_other u.tenant e.tenant ≡ false) where
    abbrev Moved : Extension → Type 0
    Moved = GivenRow u e a.extensions sound.extensions_distinct j

    Moved-one :
        (f g : Extension) (k : ℕ)
        → Moved f
        → Moved g
        → f.user ≡ some k
        → g.user ≡ some k
        → f.id ≡ g.id
    Moved-one f g k (f', fi, fc, ft, inl (p, q, r)) (g', gi, gc, gt, inl (p', q', r')) m n =
        p ∙ sym p'
    Moved-one f g k (f', fi, fc, ft, inl (p, q, r)) (g', gi, gc, gt, inr (x, o)) m n =
        absurd (x (n ∙ sym m ∙ r))
    Moved-one f g k (f', fi, fc, ft, inr (x, o)) (g', gi, gc, gt, inl (p, q, r)) m n =
        absurd (x (m ∙ sym n ∙ r))
    Moved-one f g k (f', fi, fc, ft, inr (x, o)) (g', gi, gc, gt, inr (y, o')) m n =
        sym fc ∙ sound.one_extension f' g' k fi gi (owner_kept k o m) (owner_kept k o' n) ∙ gc

    Moved-tenant :
        (f : Extension) (x : User)
        → Moved f
        → Joined u e.tenant a.users x
        → f.user ≡ some x.id
        → x.tenant ≡ some f.tenant
    Moved-tenant f x (g, gi, c, t, inl (p, q, r)) (kept, own) m =
        own (some-injective _ _ (sym m ∙ r)) ∙ ap some (sym q)
    Moved-tenant f x (g, gi, c, t, inr (n, o)) ((y, yi, d, keep), own) m =
        keep f.tenant
          (sound.extension_tenant g y gi yi (owner_kept x.id o m ∙ ap some (sym d)) ∙ ap some t)

    pub give_extension-IsAssigned : IsAssigned (give_extension u e a)
    unfolding give_extension
    give_extension-IsAssigned =
        let joined : (x : User)
            → In x (join_tenant u e.tenant a.users)
            → Joined u e.tenant a.users x =
          λ x k. join_tenant-Joined u e.tenant a.users x h sound.users_distinct i k in
        let moved = give-GivenRow u e a.extensions sound.extensions_distinct j in
        record {
          users_distinct =
              subst Distinct (sym (ids-join_tenant u e.tenant a.users h)) sound.users_distinct;
          extensions_distinct =
              subst Distinct (sym (ids-give u e a.extensions sound.extensions_distinct j))
                sound.extensions_distinct;
          dids_distinct = sound.dids_distinct;
          one_extension = λ f g k p q. Moved-one f g k (moved f p) (moved g q);
          extension_tenant = λ f x p q. Moved-tenant f x (moved f p) (joined x q);
          did_tenant = λ r x d p q l m n.
              let ((y, yi, c, keep), own) = joined x q in
              keep d.tenant (sound.did_tenant r y d p yi l (m ∙ sym c) n);
        }

  module _ (u : User) (d : Did) (i : In u a.users) (j : In d a.dids)
      (h : is_of_other u.tenant d.tenant ≡ false) where
    In-grant_row :
        (r : UserDid)
        → In r (grant_row u.id d.id a.user_dids)
        → In r a.user_dids ⊎ ((r.user ≡ u.id) × (r.did ≡ d.id))
    unfolding grant_row
    In-grant_row r k = elim (Bool-cases (any (has_did_row u.id d.id) a.user_dids)) [
      | inl e ↦ inl (rw (e, grant_row) at k)
      | inr e ↦
          elim ((In-append r a.user_dids ((record { user = u.id; did = d.id }) ∷ [])).0
            (rw (e, grant_row) at k)) [
              | inl l ↦ inl l
              | inr (inl q) ↦ inr (ap (λ (x : UserDid). x.user) q, ap (λ (x : UserDid). x.did) q)
              | inr (inr q) ↦ absurd q
            ]
    ]

    granted_tenant :
        (r : UserDid) (x : User) (c : Did)
        → In r a.user_dids ⊎ ((r.user ≡ u.id) × (r.did ≡ d.id))
        → Joined u d.tenant a.users x
        → In c a.dids
        → r.user ≡ x.id
        → r.did ≡ c.id
        → x.tenant ≡ some c.tenant
    granted_tenant r x c (inl p) ((y, yi, s, keep), own) l m n =
        keep c.tenant (sound.did_tenant r y c p yi l (m ∙ sym s) n)
    granted_tenant r x c (inr (p, q)) (kept, own) l m n =
        let same : c ≡ d =
          Distinct-key (λ (y : Did). y.id) a.dids c d sound.dids_distinct l j (sym n ∙ q) in
        own (sym m ∙ p) ∙ ap (λ (y : Did). some y.tenant) (sym same)

    pub granted-IsAssigned : IsAssigned (record a {
      users = join_tenant u d.tenant a.users;
      user_dids = grant_row u.id d.id a.user_dids;
    })
    granted-IsAssigned =
        let joined : (x : User)
            → In x (join_tenant u d.tenant a.users)
            → Joined u d.tenant a.users x =
          λ x k. join_tenant-Joined u d.tenant a.users x h sound.users_distinct i k in
        record {
          users_distinct =
              subst Distinct (sym (ids-join_tenant u d.tenant a.users h)) sound.users_distinct;
          extensions_distinct = sound.extensions_distinct;
          dids_distinct = sound.dids_distinct;
          one_extension = sound.one_extension;
          extension_tenant = λ e x p q m.
              let ((y, yi, c, keep), own) = joined x q in
              keep e.tenant (sound.extension_tenant e y p yi (m ∙ ap some (sym c)));
          did_tenant = λ r x c p q. granted_tenant r x c (In-grant_row r p) (joined x q);
        }

  -- Requests that only change rows in place.
  pub released-IsAssigned :
      (user : ℕ) → IsAssigned (record a { extensions = release user a.extensions })
  unfolding release
  released-IsAssigned user =
      let f = λ (e : Extension). record e { user = none } in
      let p = λ (e : Extension). e.user == some user in
      Kept-IsAssigned a (record a { extensions = release user a.extensions }) sound refl
        (ids-update_extensions f p (λ e. refl) a.extensions) refl (λ x k. (x, k, refl, λ t q. q))
        (update-KeptExtension f p (λ e. refl) (λ e. refl) (λ e. inl refl) a.extensions) (λ r k. k)

  pub with_transport-IsAssigned :
      (o : Option Extension) (transport : Text) → IsAssigned (with_transport o transport a).1
  with_transport-IsAssigned none transport = sound
  with_transport-IsAssigned (some e) transport =
      let f = λ (x : Extension). record x { transport_type = transport } in
      let p = λ (x : Extension). x.id == e.id in
      Kept-IsAssigned a (with_transport (some e) transport a).1 sound refl
        (ids-update_extensions f p (λ e. refl) a.extensions) refl (λ x k. (x, k, refl, λ t q. q))
        (update-KeptExtension f p (λ e. refl) (λ e. refl) (λ e. inr refl) a.extensions) (λ r k. k)

  pub save_boxes-IsAssigned : (u : User) (boxes : List FaxBox) → IsAssigned (save_boxes u boxes a)
  unfolding save_boxes
  save_boxes-IsAssigned u boxes =
      let f = λ (x : User). record x { fax_boxes = boxes } in
      let p = λ (x : User). x.id == u.id in
      Kept-IsAssigned a (save_boxes u boxes a) sound (ids-update_users f p (λ x. refl) a.users) refl
        refl (update-KeptUser f p (λ x. refl) a.users (λ x k i h q. q))
        (λ e k. (e, k, refl, refl, inr refl)) (λ r k. k)

  pub save_voicemail-IsAssigned :
      (u : User) (boxes : List ℕ) → IsAssigned (save_voicemail u boxes a)
  unfolding save_voicemail
  save_voicemail-IsAssigned u boxes =
      let f = λ (x : User). record x { voicemail_boxes = boxes } in
      let p = λ (x : User). x.id == u.id in
      Kept-IsAssigned a (save_voicemail u boxes a) sound (ids-update_users f p (λ x. refl) a.users)
        refl refl (update-KeptUser f p (λ x. refl) a.users (λ x k i h q. q))
        (λ e k. (e, k, refl, refl, inr refl)) (λ r k. k)

  pub revoked-IsAssigned :
      (p : UserDid → Bool) → IsAssigned (record a { user_dids = select p a.user_dids })
  revoked-IsAssigned p =
      Kept-IsAssigned a (record a { user_dids = select p a.user_dids }) sound refl refl refl
        (λ x k. (x, k, refl, λ t q. q)) (λ e k. (e, k, refl, refl, inr refl))
        (λ r k. ((In-select p r a.user_dids).0 k).0)
