-- ===== src/Auth/Security/Passwords.antt =====
-- auth/security/passwords.py. PASSWORD_HASHER is argon2's.
use tradinghub.Base.{String, Bool, true, false}

-- What PasswordHasher.verify does: it returns True or raises one of the two errors.
pub data Verification : Type 0 where
  verified verification_error invalid_hash_error : Verification

-- PASSWORD_HASHER: `hash` with the salt of the call, and `verify` of a hash and a password.
pub record PasswordHasher : Type 0 where
  pub hash : String → String
  pub verify : String → String → Verification

abbrev pub hash_password : PasswordHasher → String → String
hash_password hasher raw_password = hasher.hash raw_password

-- `except (VerificationError, InvalidHashError): return False`
abbrev pub verify_result : Verification → Bool
verify_result verified = true
verify_result verification_error = false
verify_result invalid_hash_error = false

-- `_verify`, which verify_password runs in a thread.
unfoldable pub verify_password : PasswordHasher → String → String → Bool
verify_password hasher raw_password password_hash =
    verify_result (hasher.verify password_hash raw_password)
