-- ===== src/Webhooks/FreeSwitch/Tables.antt =====
-- What the steps of the FreeSWITCH webhook leave as it is.
use mathlib.Core.Path.{subst}
use mathlib.Core.Option.{some-injective}
use unified_communication_ba.Common.{
  codes, ◌==◌, nat_eq, ℕ, ◌≡◌, refl, inl, inr, Bool, true, false, Option, none, some, [], Text,
  nonempty, arith, Option-cases, Bool-cases, first,
}
use unified_communication_ba.Json.{Fields, get_or_null}
use unified_communication_ba.Models.{Tenant, Extension}
use unified_communication_ba.Webhooks.FreeSwitch.State.{Db, Services, and_then}
use unified_communication_ba.Webhooks.FreeSwitch.Payload.{tenant_id_of, tenant_code_of, encrypt_or}
use unified_communication_ba.Webhooks.FreeSwitch.Tenants.{
  find_tenant, found_or_new, resolve_or_create_tenant, put_tenant, or_unchanged, provision_tenant,
}
use unified_communication_ba.Webhooks.FreeSwitch.Extensions.{
  Given, save_extension, create_extension, updated_extension, new_extension, put_extension,
}

pub and_then-some :
    {A B : Type 0} (o : Option A) (f : A → Option B) (b : B)
    → and_then o f ≡ some b
    → (a : A) × (o ≡ some a) × (f a ≡ some b)
and_then-some none f b h = cc
and_then-some (some a) f b h = (a, refl, h)

-- The tables other than that of the tenants are the same.
pub record SameTables (db db' : Db) : Type 0 where
  pub extensions : db'.extensions ≡ db.extensions
  pub dids : db'.dids ≡ db.dids
  pub user_dids : db'.user_dids ≡ db.user_dids
  pub events : db'.events ≡ db.events
  pub logs : db'.logs ≡ db.logs

pub SameTables-refl : (db : Db) → SameTables db db
SameTables-refl db = record {
  extensions = refl;
  dids = refl;
  user_dids = refl;
  events = refl;
  logs = refl;
}

found_or_new-SameTables :
    (w : Services) (p : Fields) (uuid : ℕ) (code : Text) (auto : Bool) (db : Db) (o : Option Tenant)
    → SameTables db (found_or_new w p uuid code auto db o).1
unfolding found_or_new
found_or_new-SameTables w p uuid code true db none = record {
  extensions = refl;
  dids = refl;
  user_dids = refl;
  events = refl;
  logs = refl;
}
found_or_new-SameTables w p uuid code false db none = SameTables-refl db
found_or_new-SameTables w p uuid code auto db (some t) = SameTables-refl db

pub resolve_or_create_tenant-SameTables :
    (w : Services) (p : Fields) (auto : Bool) (db : Db) (r : Option Tenant × Db)
    → resolve_or_create_tenant w p auto db ≡ some r
    → SameTables db r.1
unfolding resolve_or_create_tenant
resolve_or_create_tenant-SameTables w p auto db r =
    elim (Bool-cases (nonempty (tenant_id_of w p))) [
      | inl e ↦ elim (Option-cases (w.parse_uuid (tenant_id_of w p))) [
        | inl f ↦ rw e (rw f (λ h. cc))
        | inr (uuid, f) ↦ rw e (
            rw f (λ h.
              subst (λ (r : Option Tenant × Db). SameTables db r.1) (some-injective _ _ h)
                (found_or_new-SameTables w p uuid (tenant_code_of w p) auto db
                  (find_tenant w uuid (tenant_code_of w p) db.tenants))))
      ]
      | inr e ↦ rw e (λ h.
          subst (λ (r : Option Tenant × Db). SameTables db r.1) (some-injective _ _ h)
            (SameTables-refl db))
    ]

put_tenant-SameTables :
    (w : Services) (p : Fields) (uuid : ℕ) (code : Text) (o : Option Tenant) (db db' : Db)
    → put_tenant w p uuid code o db ≡ some db'
    → SameTables db db'
unfolding put_tenant
put_tenant-SameTables w p uuid code none db db' =
    elim (Option-cases (encrypt_or w (get_or_null (codes "api_key") p) [])) [
      | inl e ↦ rw e (λ h. cc)
      | inr (key, e) ↦ rw e (λ h.
          subst (SameTables db) (some-injective _ _ h)
            record { extensions = refl; dids = refl; user_dids = refl; events = refl; logs = refl })
    ]
put_tenant-SameTables w p uuid code (some t) db db' =
    elim (Option-cases (encrypt_or w (get_or_null (codes "api_key") p) t.encrypted_api_key)) [
      | inl e ↦ rw e (λ h. cc)
      | inr (key, e) ↦ rw e (λ h.
          subst (SameTables db) (some-injective _ _ h)
            record { extensions = refl; dids = refl; user_dids = refl; events = refl; logs = refl })
    ]

or_unchanged-SameTables :
    (o : Option Db) (db : Db)
    → ((d : Db) → o ≡ some d → SameTables db d)
    → SameTables db (or_unchanged o db)
or_unchanged-SameTables none db h = SameTables-refl db
or_unchanged-SameTables (some d) db h = h d refl

pub provision_tenant-SameTables :
    (w : Services) (p : Fields) (db : Db) → SameTables db (provision_tenant w p db)
unfolding provision_tenant
provision_tenant-SameTables w p db = elim (Option-cases (w.parse_uuid (tenant_id_of w p))) [
  | inl e ↦ rw e (SameTables-refl db)
  | inr (uuid, e) ↦
      let row = first (λ (t : Tenant). t.freeswitch_tenant_uuid == uuid) db.tenants in
      rw e (
        or_unchanged-SameTables (put_tenant w p uuid (tenant_code_of w p) row db) db
          (put_tenant-SameTables w p uuid (tenant_code_of w p) row db))
]

-- The webhook logs are the same.
abbrev pub SameLogs : Db → Db → Type 0
SameLogs db db' = db'.logs ≡ db.logs

pub put_extension-SameLogs :
    (w : Services) (g : Given) (t : Tenant) (o : Text) (row : Option Extension) (db db' : Db)
    → put_extension w g t o row db ≡ some db'
    → SameLogs db db'
unfolding put_extension save_extension create_extension
put_extension-SameLogs w g t o none db db' =
    elim (Option-cases (new_extension w g t o db.next_id)) [
      | inl e ↦ rw e (λ h. cc)
      | inr (n, e) ↦ rw e (λ h. ground arith)
    ]
put_extension-SameLogs w g t o (some x) db db' = elim (Option-cases (updated_extension w g x)) [
  | inl e ↦ rw e (λ h. cc)
  | inr (n, e) ↦ rw e (λ h. ground arith)
]
