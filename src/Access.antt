-- ===== src/Access.antt =====
-- apps/common/permissions.py and apps/common/tenant_resolver.py: who may call a view, and for which
-- tenant. The user of a request is `none` where nobody is logged in.
use unified_communication_ba.Common.{
  ℕ, Bool, true, false, ◌&&◌, ◌||◌, not, Option, none, some, List, [], ◌∷◌, Text, codes, nonempty,
  strip, lower, ◌==◌, nat_eq, list_eq, if◌then◌else◌, first, select, sort_by,
}
use unified_communication_ba.Models.{Tenant, User, Role, superadmin, admin, role_beq}
pub mod Scope
mod Tests

-- `user.is_superuser or user.role == "superadmin"`
unfoldable pub is_super_admin : User → Bool
unfolding role_beq
is_super_admin u = u.is_superuser || role_beq u.role superadmin

-- `role in ("superadmin", "admin")`
unfoldable pub is_admin_or_super_admin : User → Bool
unfolding role_beq
is_admin_or_super_admin u = u.is_superuser || (role_beq u.role superadmin || role_beq u.role admin)

unfoldable pub is_supervisor_or_admin : User → Bool
unfolding role_beq
is_supervisor_or_admin u =
    u.is_superuser || ((role_beq u.role superadmin || role_beq u.role admin) || u.is_team_lead)

-- `has_permission`: nobody is let in without a login.
unfoldable pub has_permission : (User → Bool) → Option User → Bool
has_permission p none = false
has_permission p (some u) = p u

pub data ScopedTenant : Type 0 where
  found : Tenant → ScopedTenant
  tenant_id_required : ScopedTenant
  tenant_not_found : Text → ScopedTenant
  no_tenant : ScopedTenant

abbrev pub or_other : Option Tenant → Option Tenant → Option Tenant
or_other none b = b
or_other (some a) b = some a

-- By the id of the tenant, then by that of FreeSWITCH; a text that is no UUID gives nothing.
unfoldable pub tenant_with_uuid : Option ℕ → List Tenant → Option Tenant
unfolding first
tenant_with_uuid none ts = none
tenant_with_uuid (some uuid) ts =
    or_other (first (λ (t : Tenant). t.id == uuid) ts)
      (first (λ (t : Tenant). t.freeswitch_tenant_uuid == uuid) ts)

-- `filter(tenant_code__iexact=raw).first()`, in the order of the tenants' names
unfoldable pub tenant_by_code : (Text → Text → Bool) → Text → List Tenant → Option Tenant
unfolding first select sort_by lower
tenant_by_code name_before raw ts =
    first (λ _. true)
      (sort_by (λ (a b : Tenant). not (name_before b.tenant_name a.tenant_name))
        (select (λ (t : Tenant). lower t.tenant_code == lower raw) ts))

abbrev pub found_or : ScopedTenant → Option Tenant → ScopedTenant
found_or e none = e
found_or e (some t) = found t

-- `user.tenant`
unfoldable pub tenant_of_user : Option ℕ → List Tenant → Option Tenant
unfolding first
tenant_of_user none ts = none
tenant_of_user (some id) ts = first (λ (t : Tenant). t.id == id) ts

-- The tenant that a request names, if it names one.
unfoldable pub named_tenant :
    (Text → Option ℕ) → (Text → Text → Bool) → Text → List Tenant → ScopedTenant
unfolding strip tenant_with_uuid tenant_by_code
named_tenant parse_uuid name_before raw ts =
    let name = strip raw in
    if nonempty raw
    then found_or (tenant_not_found name)
        (or_other (tenant_with_uuid (parse_uuid name) ts) (tenant_by_code name_before name ts))
    else tenant_id_required

-- The parser of UUIDs and the collation of the database come first; `raw` is the query parameter, or the
-- header, or empty.
unfoldable pub get_scoped_tenant :
    (Text → Option ℕ) → (Text → Text → Bool) → User → Text → List Tenant → ScopedTenant
unfolding is_super_admin named_tenant tenant_of_user
get_scoped_tenant parse_uuid name_before u raw ts =
    if is_super_admin u
    then named_tenant parse_uuid name_before raw ts
    else found_or no_tenant (tenant_of_user u.tenant ts)
