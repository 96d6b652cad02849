-- ===== src/Auth/Schemas.antt =====
-- auth/schemas/auth.py. `is_email` is pydantic's EmailStr.
use Prim.Native.String.{count}
use tradinghub.Base.{ℕ, String, Bool, ◌&&◌, leb}

abbrev pub min_password_length : ℕ
min_password_length = 8

abbrev pub max_email_length : ℕ
max_email_length = 254

abbrev pub max_password_length : ℕ
max_password_length = 128

pub record RegisterRequest : Type 0 where
  pub email : String
  pub password : String

pub record LoginRequest : Type 0 where
  pub email : String
  pub password : String

pub record UserResponse : Type 0 where
  pub id : ℕ
  pub email : String

unfoldable pub accepts_register : (String → Bool) → RegisterRequest → Bool
accepts_register is_email r =
    is_email r.email
    && leb (count r.email) max_email_length
    && leb min_password_length (count r.password)
    && leb (count r.password) max_password_length

unfoldable pub accepts_login : (String → Bool) → LoginRequest → Bool
accepts_login is_email r =
    is_email r.email
    && leb (count r.email) max_email_length
    && leb (count r.password) max_password_length
