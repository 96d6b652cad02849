-- ===== src/Core/Failures.antt =====
-- Results that a handler of core/errors.py answers, and what they are answered with.
use tradinghub.Base.{Bool, true, false, Option, none, some, ◌≡◌, refl, ◌≤◌, ◌<◌, arith}
use tradinghub.Core.Errors.{
  Error, Result, ok, err, app_error, integrity_error, runtime_error, validation_error, status_code,
}
use tradinghub.Core.Database.{Work, Action, finish, continue}
use tradinghub.Core.Rendering.{ErrorResponse, rendered, handle_app_error, handle_validation_error}

-- A failure that the code foresees: one of its own errors, or a body that the schema refuses.
abbrev pub is_foreseen : Error → Bool
is_foreseen (app_error e) = true
is_foreseen validation_error = true
is_foreseen integrity_error = false
is_foreseen runtime_error = false

abbrev pub ends_well {ℓ} : {A : Type ℓ} → Result A → Bool
ends_well (ok a) = true
ends_well (err e) = is_foreseen e

module _ {A : Type 0} where
  pub well-then :
      {B : Type 0} (m : Result A × Work) (f : A → Action B)
      → ((a : A) → m.0 ≡ ok a → ends_well (f a m.1).0 ≡ true)
      → ends_well m.0 ≡ true
      → ends_well (continue m.0 f m.1).0 ≡ true
  well-then (ok a, w) f then h = then a refl
  well-then (err e, w) f then h = h

pub finish-ends_well {ℓ} :
    {A : Type ℓ} (r : Result A) (w : Work) → ends_well (finish r w).0 ≡ ends_well r
unfolding finish
finish-ends_well (ok a) w = refl
finish-ends_well (err e) w = refl

-- The answer blames the request: its status is one of 400 to 499.
abbrev pub IsClientError : Option ErrorResponse → Type 0
IsClientError none = 1 ≤ 0
IsClientError (some response) = (400 ≤ response.status) × (response.status < 500)

pub foreseen-IsClientError : (e : Error) → is_foreseen e ≡ true → IsClientError (rendered e)
unfolding rendered handle_app_error handle_validation_error status_code
foreseen-IsClientError e h = ground arith
