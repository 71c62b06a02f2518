-- ===== src/Models/Dids.antt =====
-- apps/dids/models.py: phone numbers, who may use them, who works them, and who may see their logs.
use unified_communication_ba.Common.{ℕ, Option, Text}

pub record Did : Type 0 where
  pub id : ℕ
  pub tenant : ℕ
  pub department : Option ℕ
  pub freeswitch_object_id : Text
  pub number : Text
  pub name : Text
  pub account : Option ℕ

pub record UserDid : Type 0 where
  pub user : ℕ
  pub did : ℕ

-- `UserDIDDivisionAssignment`
pub record Assignment : Type 0 where
  pub user : ℕ
  pub did : ℕ
  pub division : ℕ
  pub department : Option ℕ

pub record AccessGroupEntry : Type 0 where
  pub group : ℕ
  pub did : Option ℕ
  pub department : Option ℕ
  pub division : Option ℕ

pub record TlGroupAccess : Type 0 where
  pub user : ℕ
  pub group : ℕ
