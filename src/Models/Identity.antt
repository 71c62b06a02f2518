-- ===== src/Models/Identity.antt =====
-- apps/tenants/models.py, apps/users/models.py and apps/extensions/models.py: who uses the system.
use unified_communication_ba.Common.{
  ℕ, ◌≡◌, ◌↔◌, Bool, true, false, Option, List, Text, Dict, arith,
}

pub data Role : Type 0 where
  superadmin admin user : Role

unfoldable pub role_beq : Role → Role → Bool
role_beq superadmin superadmin = true
role_beq admin admin = true
role_beq user user = true
role_beq _ _ = false

pub role_beq_iff : (a b : Role) → (role_beq a b ≡ true) ↔ (a ≡ b)
unfolding role_beq
role_beq_iff superadmin b = ground arith
role_beq_iff admin b = ground arith
role_beq_iff user b = ground arith

pub record Tenant : Type 0 where
  pub id : ℕ
  pub freeswitch_tenant_uuid : ℕ
  pub tenant_code : Text
  pub tenant_name : Text
  pub encrypted_api_key : Text
  pub features : Dict Text Bool
  pub sip_domain : Text
  pub is_active : Bool
  pub telnyx_messaging_profile_id : Text

pub record FaxBox : Type 0 where
  pub fax_uuid : Text
  pub fax_caller_id_name : Text
  pub fax_caller_id_number : Text

pub record User : Type 0 where
  pub id : ℕ
  pub tenant : Option ℕ
  pub email : Text
  pub password : Text
  pub role : Role
  pub is_superuser : Bool
  pub is_staff : Bool
  pub is_team_lead : Bool
  pub is_active : Bool
  pub is_first_login : Bool
  pub must_change_password : Bool
  pub first_name : Text
  pub last_name : Text
  pub sip_domain : Text
  pub fax_boxes : List FaxBox
  pub features : Dict Text Bool
  pub voicemail_boxes : List ℕ

pub record Extension : Type 0 where
  pub id : ℕ
  pub tenant : ℕ
  pub user : Option ℕ
  pub freeswitch_object_id : Text
  pub extension_number : Text
  pub sip_username : Text
  pub encrypted_sip_password : Text
  pub transport_type : Text
