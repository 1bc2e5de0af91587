-- ===== src/Shared/Token.antt =====
-- backend-go/shared/jwt.go: the claims of a user's token. A role is a string there.
use try_it.Prelude.{ℕ, String}

abbrev pub role_admin : String
role_admin = "admin"

abbrev pub role_participant : String
role_participant = "participant"

pub record UserToken : Type 0 where
  pub user_id : String
  pub user_name : String
  pub user_type : String
  pub session_id : String
  pub exp : ℕ
