-- ===== src/Users/Public.antt =====
-- backend/internal/users/users.go, `Public`: the view of an account that leaves the server.
use llama_labels.Common.{String, Bool}
use llama_labels.Users.{User, Role}

pub record Public : Type 0 where
  pub id : String
  pub username : String
  pub role : Role
  pub active : Bool
  pub must_change_password : Bool
  pub created_at : String
  pub updated_at : String
  pub deactivated_at : String
  pub totp_enabled : Bool
  pub pgp_fingerprint : String
  pub pgp_key_id : String
  pub pgp_key_source : String
  pub pgp_key_created_at : String

abbrev pub public : User → Public
public u = record {
  id = u.id;
  username = u.username;
  role = u.role;
  active = u.active;
  must_change_password = u.must_change_password;
  created_at = u.created_at;
  updated_at = u.updated_at;
  deactivated_at = u.deactivated_at;
  totp_enabled = u.totp_enabled;
  pgp_fingerprint = u.pgp_fingerprint;
  pgp_key_id = u.pgp_key_id;
  pgp_key_source = u.pgp_key_source;
  pgp_key_created_at = u.pgp_key_created_at;
}
