-- ===== src/Users/Login/Created.antt =====
-- Logging in (apps/users/serializers.py) after the account was created.
use unified_communication_ba.Common.{
  ◌≡◌, inl, inr, refl, ap, ◌∙◌, Bool, true, false, not, ◌&&◌, some, List, [], ◌∷◌, ◌++◌, Text,
  nonempty, ◌==◌, nat_eq, list_eq, list_beq_iff, first, any, Bool-cases,
}
use unified_communication_ba.Models.{User}
use unified_communication_ba.Users.Assign.Sound.{IsAssigned}
use unified_communication_ba.Users.Create.{
  ok, next_of, tenant_for, create_for, Form, People, Helpers, ResolvedRow, normalize_email,
  validate_form, new_user, password_of, create_account,
}
use unified_communication_ba.Users.Create.Caller.{next_of-ok, create_account-Created}
use unified_communication_ba.Users.Create.Kept.{IsFresh, create_account-users}
use unified_communication_ba.Users.Login.{login, login_of, check_resources}

first-append :
    (p : User → Bool) (us : List User) (u : User)
    → any p us ≡ false
    → p u ≡ true
    → first p (us ++ u ∷ []) ≡ some u
unfolding first any
first-append p [] u n h = rw h refl
first-append p (x ∷ us) u n h = elim (Bool-cases (p x)) [
  | inl e ↦ absurd (cc (rw (e, any) at n))
  | inr e ↦ rw e (first-append p us u (rw (e, any) at n) h)
]

module _ (w : Helpers) (form : Form) where
  -- A form that is accepted names an email that nobody has.
  accepted-email :
      (invite : Bool) (p : People) (rows : List ResolvedRow)
      → validate_form w invite form p ≡ ok rows
      → any (λ (u : User). u.email == normalize_email form.email) p.accounts.users ≡ false
  unfolding validate_form
  accepted-email invite p rows h = elim (Bool-cases (nonempty form.email)) [
    | inr e ↦ let q = rw (e, validate_form) at h in absurd cc
    | inl e ↦ elim (Bool-cases (not invite && not (nonempty form.password))) [
      | inl f ↦ let q = rw (e, f, validate_form) at h in absurd cc
      | inr f ↦
          elim (Bool-cases
            (any (λ (u : User). u.email == normalize_email form.email) p.accounts.users)) [
              | inl g ↦ let q = rw (e, f, g, validate_form) at h in absurd cc
              | inr g ↦ g
            ]
    ]
  ]

  accepted :
      (invite : Bool) (caller : User) (p : People) (u : User) (p' : People)
      → create_account w invite caller form p ≡ ok (u, p')
      → (rows : List ResolvedRow) × (validate_form w invite form p ≡ ok rows)
  unfolding create_account
  accepted invite caller p u p' h =
      let (rows, e, f) =
        next_of-ok (validate_form w invite form p)
          (λ rows. next_of (tenant_for w caller form p.accounts) (λ t. create_for w form rows p t))
          (u, p') h in
      (rows, e)

  found-created :
      (invite : Bool) (caller : User) (p : People) (u : User) (p' : People)
      → IsFresh p
      → IsAssigned p.accounts
      → create_account w invite caller form p ≡ ok (u, p')
      → u.email ≡ normalize_email form.email
      → first (λ (x : User). x.email == normalize_email form.email) p'.accounts.users ≡ some u
  found-created invite caller p u p' fresh sound h e =
      let (rows, f) = accepted invite caller p u p' h in
      let is_of = λ (x : User). x.email == normalize_email form.email in
      ap (first is_of) (create_account-users w form invite caller p u p' fresh sound h)
      ∙ first-append is_of p.accounts.users u (accepted-email invite p rows f)
          ((list_beq_iff u.email (normalize_email form.email)).1 e)

  -- Where the resources of users are sound, no row refers to a user that is still to come and `check_password`
  -- accepts a password against its own hash: the login of a user that was just created and is active, with
  -- the email as the form gives it and the password of the form or else the temporary one, is answered by the
  -- check of the user's resources alone.
  pub login-create_account :
      (check_password : Text → Text → Bool)
      → ((s : Text) → check_password (w.make_password s) s ≡ true)
      → (invite : Bool) (caller : User) (p : People) (u : User) (p' : People) → IsFresh p
      → IsAssigned p.accounts
      → create_account w invite caller form p ≡ ok (u, p')
      → u.is_active ≡ true
      → login check_password form.email (password_of w form) p'.accounts
        ≡ check_resources u p'.accounts
  unfolding login login_of new_user
  login-create_account check_password accepts invite caller p u p' fresh sound h active =
      let (o, x, c) = create_account-Created w form invite caller p u p' h in
      let e = ap (λ (z : User). z.email) c.row in
      let q : check_password u.password (password_of w form) ≡ true =
        ap (λ (z : User). check_password z.password (password_of w form)) c.row
        ∙ accepts (password_of w form) in
      ap (login_of check_password (password_of w form) p'.accounts)
        (found-created invite caller p u p' fresh sound h e)
      ∙ rw (q, active) refl
