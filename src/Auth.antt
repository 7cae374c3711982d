-- ===== src/Auth.antt =====
-- core/auth: roles and their permissions, sessions, and what a request may do.
pub mod Permissions
pub mod Sessions
pub mod Management
pub mod Owners
pub mod Dependencies
pub mod Access
use tgc_bus_core.Base.{ℕ, String, Bool, Option, List}
use tgc_bus_core.Effects.{Session}

-- The rows of core/appdb/models.py that the dependencies and the management read.
pub record AuthUser : Type 0 where
  pub id : ℕ
  pub username : String
  pub username_norm : String
  pub is_enabled : Bool
  pub password_hash : String
  pub must_change_password : Bool
  pub last_login_at : Option ℕ

pub record AuthRole : Type 0 where
  pub id : ℕ
  pub key : String
  pub is_system : Bool

pub record AuthUserRole : Type 0 where
  pub user_id : ℕ
  pub role_id : ℕ

pub record AuthRolePermission : Type 0 where
  pub role_id : ℕ
  pub permission : String

-- Times are counted in microseconds.
pub record AuthSession : Type 0 where
  pub id : ℕ
  pub user_id : ℕ
  pub session_hash : String
  pub created_at : Option ℕ
  pub expires_at : Option ℕ
  pub revoked_at : Option ℕ
  pub last_seen_at : Option ℕ

pub record AuthRecoveryCode : Type 0 where
  pub id : ℕ
  pub user_id : ℕ
  pub code_hash : String
  pub used_at : Option ℕ

pub record AuthRecoveryAttempt : Type 0 where
  pub id : ℕ
  pub username_norm : String
  pub client_key : String
  pub failed_count : ℕ
  pub first_failed_at : Option ℕ
  pub locked_until : Option ℕ

-- Without the request's id and the JSON of the detail.
pub record AuthAuditEvent : Type 0 where
  pub action : String
  pub actor_user_id : Option ℕ
  pub target : Option (String × ℕ)

-- `has_tables` is false where the auth tables are missing.
pub record AuthDb : Type 0 where
  pub has_tables : Bool
  pub users : List AuthUser
  pub roles : List AuthRole
  pub user_roles : List AuthUserRole
  pub role_permissions : List AuthRolePermission
  pub sessions : List AuthSession
  pub recovery_codes : List AuthRecoveryCode
  pub recovery_attempts : List AuthRecoveryAttempt
  pub audit_events : List AuthAuditEvent
