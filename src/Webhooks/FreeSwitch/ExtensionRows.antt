-- ===== src/Webhooks/FreeSwitch/ExtensionRows.antt =====
-- The extension events of the FreeSWITCH webhook: the rows of the tenant and those of the others.
use mathlib.Core.Path.{subst}
use mathlib.Core.Option.{some-injective}
use unified_communication_ba.Common.{
  ℕ, ◌≡◌, ◌≢◌, nat_eq, nat_beq_iff, In, first-In, refl, ap, ◌∙◌, inl, inr, some, List, [], Text,
  arith, Option-cases, Bool-cases, first, any,
}
use unified_communication_ba.Models.{Tenant, Extension, Did}
use unified_communication_ba.Webhooks.FreeSwitch.State.{Db, Services}
use unified_communication_ba.Webhooks.FreeSwitch.Payload.{encrypt_or}
use unified_communication_ba.Webhooks.FreeSwitch.Extensions.{
  clashes, save_extension, create_extension, new_extension, updated_extension, Given, put_extension,
  has_object,
}
use unified_communication_ba.Webhooks.FreeSwitch.Tables.{and_then-some}
use unified_communication_ba.Webhooks.FreeSwitch.Rows.{rows, rows-append, rows-update_where}

-- Ids name one row.
pub record HasKeys (db : Db) : Type 0 where
  pub extensions : (x y : Extension) → In x db.extensions → In y db.extensions → x.id ≡ y.id → x ≡ y
  pub dids : (x y : Did) → In x db.dids → In y db.dids → x.id ≡ y.id → x ≡ y

abbrev pub extension_rows : ℕ → Db → List Extension
extension_rows u db = rows (λ (e : Extension). e.tenant) (λ (e : Extension). e.id) u db.extensions

abbrev pub did_rows : ℕ → Db → List Did
did_rows u db = rows (λ (d : Did). d.tenant) (λ (d : Did). d.id) u db.dids

-- Every other tenant has the same extensions and DIDs.
pub record OnlyTenant (t : ℕ) (db db' : Db) : Type 0 where
  pub extensions : (u : ℕ) → u ≢ t → extension_rows u db' ≡ extension_rows u db
  pub dids : (u : ℕ) → u ≢ t → did_rows u db' ≡ did_rows u db

pub same_rows :
    (t : ℕ) (db db' : Db)
    → db'.extensions ≡ db.extensions
    → db'.dids ≡ db.dids
    → OnlyTenant t db db'
same_rows t db db' e f = record {
  extensions = λ u n. ap (rows (λ (e : Extension). e.tenant) (λ (e : Extension). e.id) u) e;
  dids = λ u n. ap (rows (λ (d : Did). d.tenant) (λ (d : Did). d.id) u) f;
}

pub OnlyTenant-trans : {t : ℕ} {a b c : Db} → OnlyTenant t a b → OnlyTenant t b c → OnlyTenant t a c
OnlyTenant-trans h k = record {
  extensions = λ u n. k.extensions u n ∙ h.extensions u n;
  dids = λ u n. k.dids u n ∙ h.dids u n;
}

updated_extension-same :
    (w : Services) (g : Given) (e e' : Extension)
    → updated_extension w g e ≡ some e'
    → (e'.id ≡ e.id) × (e'.tenant ≡ e.tenant)
unfolding updated_extension
updated_extension-same w g e e' =
    elim (Option-cases (encrypt_or w g.sip_password e.encrypted_sip_password)) [
      | inl c ↦ rw c (λ h. cc)
      | inr (k, c) ↦ rw c (λ h. ground arith)
    ]

new_extension-tenant :
    (w : Services) (g : Given) (t : Tenant) (o : Text) (id : ℕ) (e : Extension)
    → new_extension w g t o id ≡ some e
    → e.tenant ≡ t.id
unfolding new_extension
new_extension-tenant w g t o id e = elim (Option-cases (encrypt_or w g.sip_password [])) [
  | inl c ↦ rw c (λ h. cc)
  | inr (k, c) ↦ rw c (λ h. ground arith)
]

save_extension-OnlyTenant :
    (e : Extension) (t : ℕ) (db db' : Db)
    → e.tenant ≡ t
    → ((x : Extension) → In x db.extensions → x.id ≡ e.id → x.tenant ≡ t)
    → save_extension e db ≡ some db'
    → OnlyTenant t db db'
unfolding save_extension
save_extension-OnlyTenant e t db db' f k = elim (Bool-cases (any (clashes e) db.extensions)) [
  | inl c ↦ rw c (λ h. cc)
  | inr c ↦ rw c (λ h. subst (OnlyTenant t db) (some-injective _ _ h) record {
    extensions = λ u n.
        rows-update_where (λ (e : Extension). e.tenant) (λ (e : Extension). e.id) t u n e
          db.extensions f k;
    dids = λ u n. refl;
  })
]

create_extension-OnlyTenant :
    (e : Extension) (t : ℕ) (db db' : Db)
    → e.tenant ≡ t
    → create_extension e db ≡ some db'
    → OnlyTenant t db db'
unfolding create_extension
create_extension-OnlyTenant e t db db' f = elim (Bool-cases (any (clashes e) db.extensions)) [
  | inl c ↦ rw c (λ h. cc)
  | inr c ↦ rw c (λ h. subst (OnlyTenant t db) (some-injective _ _ h) record {
    extensions = λ u n.
        rows-append (λ (e : Extension). e.tenant) (λ (e : Extension). e.id) t u n e db.extensions f;
    dids = λ u n. refl;
  })
]

pub put_extension-OnlyTenant :
    (w : Services) (g : Given) (t : Tenant) (o : Text) (db db' : Db)
    → HasKeys db
    → put_extension w g t o (first (has_object t o) db.extensions) db ≡ some db'
    → OnlyTenant t.id db db'
unfolding put_extension
put_extension-OnlyTenant w g t o db db' keys =
    elim (Option-cases (first (has_object t o) db.extensions)) [
      | inl e ↦ rw e (λ h.
          let (x, f, k) =
            and_then-some (new_extension w g t o db.next_id) (λ e. create_extension e db) db' h in
          create_extension-OnlyTenant x t.id db db' (new_extension-tenant w g t o db.next_id x f) k)
      | inr (x, e) ↦ rw e (λ h.
          let (i, c) = first-In (has_object t o) x db.extensions e in
          let (y, f, k) =
            and_then-some (updated_extension w g x) (λ e'. save_extension e' db) db' h in
          let (a, b) = updated_extension-same w g x y f in
          let of_tenant : x.tenant ≡ t.id = ground (arith, nat_beq_iff x.tenant t.id) in
          save_extension-OnlyTenant y t.id db db' (b ∙ of_tenant)
            (λ z j e'.
              ap (λ (x : Extension). x.tenant) (keys.extensions z x j i (e' ∙ a)) ∙ of_tenant)
            k)
    ]
