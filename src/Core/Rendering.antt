-- ===== src/Core/Rendering.antt =====
-- The handlers of core/errors.py: what a failure is answered with.
use Prim.Native.String.{◌++◌ as text_append}
use tradinghub.Base.{ℕ, String, List, [], ◌∷◌, Option, none, some}
use tradinghub.Core.Errors.{
  AppError, Error, rate_limited, app_error, integrity_error, runtime_error, validation_error,
  status_code, code, message,
}

-- A JSON response {"error": {"code": …, "message": …}} with its headers.
pub record ErrorResponse : Type 0 where
  pub status : ℕ
  pub error_code : String
  pub error_message : String
  pub headers : List (String × String)

abbrev pub error_response : ℕ → String → String → List (String × String) → ErrorResponse
error_response status code message headers = record {
  status = status;
  error_code = code;
  error_message = message;
  headers = headers;
}

-- RateLimitedError.headers: the text of 15 * 60.
abbrev pub rate_limited_headers : List (String × String)
rate_limited_headers = ("Retry-After", "900") ∷ []

-- AppError.headers: empty for every other class.
abbrev pub headers_of : AppError → List (String × String)
headers_of rate_limited = rate_limited_headers
headers_of _ = []

unfoldable pub handle_app_error : AppError → ErrorResponse
unfolding status_code code message
handle_app_error error =
    error_response (status_code error) (code error) (message error) (headers_of error)

unfoldable pub handle_validation_error : ErrorResponse
handle_validation_error = error_response 422 "validation_error" "The request is invalid." []

-- The members of HTTPStatus that the framework raises by itself: for an unreadable body, an unknown path
-- and a wrong method.
pub data HttpStatus : Type 0 where
  bad_request not_found method_not_allowed : HttpStatus

abbrev pub status_value : HttpStatus → ℕ
status_value bad_request = 400
status_value not_found = 404
status_value method_not_allowed = 405

-- `status.name.lower()`
abbrev pub lower_name : HttpStatus → String
lower_name bad_request = "bad_request"
lower_name not_found = "not_found"
lower_name method_not_allowed = "method_not_allowed"

abbrev pub phrase : HttpStatus → String
phrase bad_request = "Bad Request"
phrase not_found = "Not Found"
phrase method_not_allowed = "Method Not Allowed"

-- The HTTPException that the framework raises: its status and its headers, such as Allow.
pub record HttpException : Type 0 where
  pub status : HttpStatus
  pub headers : List (String × String)

unfoldable pub handle_http_exception : HttpException → ErrorResponse
handle_http_exception error =
    error_response (status_value error.status) (lower_name error.status)
      (text_append (phrase error.status) ".") error.headers

-- The response of a registered handler, and `none` for an exception that has none.
unfoldable pub rendered : Error → Option ErrorResponse
unfolding handle_app_error handle_validation_error
rendered (app_error e) = some (handle_app_error e)
rendered validation_error = some handle_validation_error
rendered integrity_error = none
rendered runtime_error = none
