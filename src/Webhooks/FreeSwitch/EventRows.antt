-- ===== src/Webhooks/FreeSwitch/EventRows.antt =====
-- The events of the FreeSWITCH webhook, one by one: the rows of the tenant and those of the others.
use mathlib.Core.Path.{subst}
use mathlib.Core.Option.{some-injective}
use unified_communication_ba.Common.{
  codes, ◌++◌, ℕ, ◌≡◌, nat_eq, nat_beq_iff, first-In, refl, ap, ◌∙◌, inl, inr, Option, none, some,
  List, [], ◌∷◌, Text, arith, Option-cases, first,
}
use unified_communication_ba.Json.{Json, null, bool, int, float, str, arr, obj, Fields}
use unified_communication_ba.Models.{Tenant, Extension, Did}
use unified_communication_ba.Webhooks.FreeSwitch.State.{Db, Services}
use unified_communication_ba.Webhooks.FreeSwitch.Extensions.{
  put_extension, extension_created, given_by_event, given_by_server, has_object, notify_user,
  notify_owner, get_resource, extension_synced, extension_updated, extension_deleted,
}
use unified_communication_ba.Webhooks.FreeSwitch.Dids.{
  notify_users, put_did, did_put, did_deleted, has_did, assigned_user_ids, new_did, updated_did,
}
use unified_communication_ba.Webhooks.FreeSwitch.Tables.{and_then-some}
use unified_communication_ba.Webhooks.FreeSwitch.Rows.{rows-append, rows-update_where, rows-select}
use unified_communication_ba.Webhooks.FreeSwitch.ExtensionRows.{
  HasKeys, OnlyTenant, same_rows, OnlyTenant-trans, put_extension-OnlyTenant,
}

notify_owner-OnlyTenant :
    (w : Services) (t : Tenant) (row : Option Extension) (u : ℕ) (db : Db)
    → OnlyTenant u db (notify_owner w t row db)
unfolding notify_user
notify_owner-OnlyTenant w t none u db = same_rows u db db refl refl
notify_owner-OnlyTenant w t (some e) u db = elim (Option-cases e.user) [
  | inl c ↦ rw c (same_rows u db db refl refl)
  | inr (v, c) ↦ rw c (same_rows u db _ refl refl)
]

extension_synced-OnlyTenant :
    (w : Services) (fs : Json) (t : Tenant) (o : Text) (db db' : Db)
    → HasKeys db
    → extension_synced w fs t o db ≡ some db'
    → OnlyTenant t.id db db'
unfolding extension_synced
extension_synced-OnlyTenant w null t o db db' keys h =
    subst (OnlyTenant t.id db) (some-injective _ _ h) (same_rows t.id db db refl refl)
extension_synced-OnlyTenant w (bool b) t o db db' keys h = absurd cc
extension_synced-OnlyTenant w (int n) t o db db' keys h = absurd cc
extension_synced-OnlyTenant w (float s) t o db db' keys h = absurd cc
extension_synced-OnlyTenant w (str s) t o db db' keys h = absurd cc
extension_synced-OnlyTenant w (arr xs) t o db db' keys h = absurd cc
extension_synced-OnlyTenant w (obj p) t o db db' keys h =
    let row = first (has_object t o) db.extensions in
    let (d, e, f) =
      and_then-some (put_extension w (given_by_server p) t o row db)
        (λ d. some (notify_owner w t row d)) db' h in
    subst (OnlyTenant t.id db) (some-injective _ _ f) (
      OnlyTenant-trans (put_extension-OnlyTenant w (given_by_server p) t o db d keys e)
        (notify_owner-OnlyTenant w t row t.id d))

notify_users-OnlyTenant :
    (w : Services) (t : Tenant) (d : Did) (us : List ℕ) (u : ℕ) (a db : Db)
    → OnlyTenant u a db
    → OnlyTenant u a (notify_users w t d us db)
unfolding notify_users
notify_users-OnlyTenant w t d [] u a db h = h
notify_users-OnlyTenant w t d (v ∷ us) u a db h =
    notify_users-OnlyTenant w t d us u a _ record { extensions = h.extensions; dids = h.dids }

pub did_put-OnlyTenant :
    (w : Services) (p : Fields) (t : Tenant) (o : Text) (db : Db)
    → HasKeys db
    → OnlyTenant t.id db (did_put w p t o db)
unfolding did_put put_did new_did updated_did
did_put-OnlyTenant w p t o db keys = elim (Option-cases (first (has_did t o) db.dids)) [
  | inl e ↦ rw e record {
    extensions = λ u n. refl;
    dids = λ u n.
        rows-append (λ (d : Did). d.tenant) (λ (d : Did). d.id) t.id u n
          (new_did w p t o db.next_id) db.dids refl;
  }
  | inr (x, e) ↦
      let (i, c) = first-In (has_did t o) x db.dids e in
      let of_tenant : x.tenant ≡ t.id = ground (arith, nat_beq_iff x.tenant t.id) in
      rw e (
        notify_users-OnlyTenant w t x (assigned_user_ids x db.user_dids) t.id db _ record {
          extensions = λ u n. refl;
          dids = λ u n.
              rows-update_where (λ (d : Did). d.tenant) (λ (d : Did). d.id) t.id u n
                (updated_did w p x) db.dids of_tenant
                (λ z j e'. ap (λ (d : Did). d.tenant) (keys.dids z x j i e') ∙ of_tenant);
        })
]

pub extension_deleted-OnlyTenant :
    (t : Tenant) (o : Text) (db : Db) → OnlyTenant t.id db (extension_deleted t o db)
unfolding extension_deleted
extension_deleted-OnlyTenant t o db = record {
  extensions = λ u n.
      rows-select (λ (e : Extension). e.tenant) (λ (e : Extension). e.id) t.id u n (has_object t o)
        db.extensions (λ x h. ground (arith, nat_beq_iff x.tenant t.id));
  dids = λ u n. refl;
}

pub did_deleted-OnlyTenant :
    (t : Tenant) (o : Text) (db : Db) → OnlyTenant t.id db (did_deleted t o db)
unfolding did_deleted
did_deleted-OnlyTenant t o db = record {
  extensions = λ u n. refl;
  dids = λ u n.
      rows-select (λ (d : Did). d.tenant) (λ (d : Did). d.id) t.id u n (has_did t o) db.dids
        (λ x h. ground (arith, nat_beq_iff x.tenant t.id));
}

pub extension_updated-OnlyTenant :
    (w : Services) (t : Tenant) (o : Text) (db db' : Db)
    → HasKeys db
    → extension_updated w t o db ≡ some db'
    → OnlyTenant t.id db db'
unfolding extension_updated
extension_updated-OnlyTenant w t o db db' keys h =
    let (j, e, f) =
      and_then-some (get_resource w t (codes "extensions/" ++ o ++ codes "/"))
        (λ j. extension_synced w j t o db) db' h in
    extension_synced-OnlyTenant w j t o db db' keys f

pub extension_created-OnlyTenant :
    (w : Services) (p : Fields) (t : Tenant) (o : Text) (db db' : Db)
    → HasKeys db
    → extension_created w p t o db ≡ some db'
    → OnlyTenant t.id db db'
unfolding extension_created
extension_created-OnlyTenant w p t o db db' keys h =
    put_extension-OnlyTenant w (given_by_event p) t o db db' keys h
