-- ===== src/Auth/Models.antt =====
-- auth/models: the rows of the users and the sessions tables.
use tradinghub.Base.{ℕ, String, Option}

pub record User : Type 0 where
  pub id : ℕ
  pub email : String
  pub password_hash : String

pub record Session : Type 0 where
  pub id : ℕ
  pub user_id : ℕ
  pub family_id : ℕ
  pub hashed_refresh_token : String
  pub used_at : Option ℕ
  pub expires_at : ℕ
