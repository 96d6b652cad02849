-- ===== src/Core/Errors.antt =====
-- core/errors.py, and the subclasses of AppError that auth/errors.py and ledger/errors.py declare.
-- An exception is a value; every class but these stands as runtime_error.
use tradinghub.Base.{ℕ, String, ◌*◌}

-- The subclasses, one constructor each.
pub data AppError : Type 0 where
  invalid_credentials invalid_session email_taken rate_limited : AppError
  account_not_found account_name_taken transaction_not_found transfer_not_editable : AppError
  transfer_amounts_differ transfer_same_account : AppError

pub data Error : Type 0 where
  app_error : AppError → Error
  integrity_error runtime_error validation_error : Error

pub data Result {ℓ} (A : Type ℓ) : Type ℓ where
  ok : A → Result A
  err : Error → Result A

-- The HTTP status codes that the errors carry.
unfoldable pub status_code : AppError → ℕ
status_code invalid_credentials = 401
status_code invalid_session = 401
status_code email_taken = 409
status_code rate_limited = 429
status_code account_not_found = 404
status_code account_name_taken = 409
status_code transaction_not_found = 404
status_code transfer_not_editable = 409
status_code transfer_amounts_differ = 422
status_code transfer_same_account = 422

unfoldable pub code : AppError → String
code invalid_credentials = "invalid_credentials"
code invalid_session = "invalid_session"
code email_taken = "email_taken"
code rate_limited = "rate_limited"
code account_not_found = "account_not_found"
code account_name_taken = "account_name_taken"
code transaction_not_found = "transaction_not_found"
code transfer_not_editable = "transfer_not_editable"
code transfer_amounts_differ = "transfer_amounts_differ"
code transfer_same_account = "transfer_same_account"

unfoldable pub message : AppError → String
message invalid_credentials = "Email or password is incorrect."
message invalid_session = "Your session has expired. Please log in again."
message email_taken = "That email is already registered."
message rate_limited = "Too many attempts. Please try again later."
message account_not_found = "Account not found."
message account_name_taken = "You already have an account with that name."
message transaction_not_found = "Transaction not found."
message transfer_not_editable = "A transfer cannot be edited. Delete it and record it again."
message transfer_amounts_differ =
    "Between accounts of the same unit, the amount sent must equal the amount received."
message transfer_same_account = "A transfer needs two different accounts."

-- RateLimitedError.retry_after_seconds
abbrev pub retry_after_seconds : ℕ
retry_after_seconds = 15 * 60
