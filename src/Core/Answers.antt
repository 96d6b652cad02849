-- ===== src/Core/Answers.antt =====
-- What clients and the access log can rely on: core/errors.py and core/middleware.py.
use tradinghub.Base.{
  ℕ, String, Option, none, some, List, [], ◌∷◌, ◌≡◌, refl, sym, ap, ◌∙◌, find?, same_text,
}
use tradinghub.Core.Errors.{
  AppError, Error, app_error, integrity_error, runtime_error, validation_error, invalid_credentials,
  invalid_session, email_taken, rate_limited, account_not_found, account_name_taken,
  transaction_not_found, transfer_not_editable, transfer_amounts_differ, transfer_same_account,
  code,
}
use tradinghub.Core.Rendering.{
  ErrorResponse, rendered, HttpStatus, bad_request, not_found, method_not_allowed, lower_name,
  handle_http_exception,
}
use tradinghub.Core.Middleware.{
  Context, LogLine, Request, Response, Outcome, responded, raised, dispatch, answer, id_of,
}

-- What the handlers answer: an exception of the application, or one of the framework.
pub data Failure : Type 0 where
  own : Error → Failure
  framework : HttpStatus → Failure

-- The headers are those of an HTTPException.
unfoldable pub answered : List (String × String) → Failure → Option ErrorResponse
answered headers (own e) = rendered e
answered headers (framework status) =
    some (handle_http_exception (record { status = status; headers = headers }))

-- The failure that a code stands for.
abbrev failures : List Failure
failures =
    own (app_error invalid_credentials)
    ∷ own (app_error invalid_session)
    ∷ own (app_error email_taken)
    ∷ own (app_error rate_limited)
    ∷ own (app_error account_not_found)
    ∷ own (app_error account_name_taken)
    ∷ own (app_error transaction_not_found)
    ∷ own (app_error transfer_not_editable)
    ∷ own (app_error transfer_amounts_differ)
    ∷ own (app_error transfer_same_account)
    ∷ own validation_error
    ∷ framework bad_request
    ∷ framework not_found
    ∷ framework method_not_allowed
    ∷ []

abbrev code_of : Option ErrorResponse → String
code_of none = ""
code_of (some r) = r.error_code

abbrev failure_of : String → Option Failure
failure_of c = find? (λ f. same_text (code_of (answered [] f)) c) failures

failure_of-code : (e : AppError) → failure_of (code e) ≡ some (own (app_error e))
unfolding answered rendered
failure_of-code invalid_credentials = refl
failure_of-code invalid_session = refl
failure_of-code email_taken = refl
failure_of-code rate_limited = refl
failure_of-code account_not_found = refl
failure_of-code account_name_taken = refl
failure_of-code transaction_not_found = refl
failure_of-code transfer_not_editable = refl
failure_of-code transfer_amounts_differ = refl
failure_of-code transfer_same_account = refl

failure_of-rendered :
    (e : Error) (r : ErrorResponse) → rendered e ≡ some r → failure_of r.error_code ≡ some (own e)
unfolding answered rendered
failure_of-rendered (app_error e) r h = ap (λ o. failure_of (code_of o)) (sym h) ∙ failure_of-code e
failure_of-rendered validation_error r h = ap (λ o. failure_of (code_of o)) (sym h) ∙ refl
failure_of-rendered integrity_error r h = cc
failure_of-rendered runtime_error r h = cc

failure_of-lower_name :
    (status : HttpStatus) → failure_of (lower_name status) ≡ some (framework status)
unfolding answered rendered handle_http_exception
failure_of-lower_name bad_request = refl
failure_of-lower_name not_found = refl
failure_of-lower_name method_not_allowed = refl

failure_of-answered :
    (headers : List (String × String)) (f : Failure) (r : ErrorResponse)
    → answered headers f ≡ some r
    → failure_of r.error_code ≡ some f
unfolding answered handle_http_exception
failure_of-answered headers (own e) r h = failure_of-rendered e r h
failure_of-answered headers (framework status) r h =
    ap (λ o. failure_of (code_of o)) (sym h) ∙ failure_of-lower_name status

-- Two failures that are answered with one code, the application's own and the framework's alike, are one
-- failure, so a client can branch on the code.
pub answered_injective :
    (headers headers' : List (String × String)) (f f' : Failure) (r r' : ErrorResponse)
    → answered headers f ≡ some r
    → answered headers' f' ≡ some r'
    → r.error_code ≡ r'.error_code
    → f ≡ f'
answered_injective headers headers' f f' r r' h h' same =
    let one =
      sym (failure_of-answered headers f r h)
      ∙ ap failure_of same
      ∙ failure_of-answered headers' f' r' h' in
    cc

-- The status of the answer to what the application did.
abbrev pub status_of : Outcome → ℕ
status_of (responded status user) = status
status_of raised = 500

-- One access line for the request, with the id that the response carries, and no trace in the context.
pub record IsTraced (id : String) (request : Request) (before : Context) (outcome : Outcome)
    (result : Response × List LogLine × Context) : Type 0 where
  pub line : LogLine
  pub only_line : result.1 ≡ line ∷ []
  pub stamped : line.stamp.request_id ≡ id
  pub path : line.path ≡ request.path
  pub header : result.0.request_id ≡ some id
  pub status : result.0.status_code ≡ status_of outcome
  pub restored : result.2 ≡ before

answer-IsTraced :
    (id : String) (request : Request) (before : Context) (outcome : Outcome)
    → (let (response, lines, after) = answer request outcome (record before { request_id = id }) in
        IsTraced id request before outcome
          (response, lines, record after { request_id = before.request_id }))
answer-IsTraced id request before (responded status user) = record {
  line = _;
  only_line = refl;
  stamped = refl;
  path = refl;
  header = refl;
  status = refl;
  restored = refl;
}
answer-IsTraced id request before raised = record {
  line = _;
  only_line = refl;
  stamped = refl;
  path = refl;
  header = refl;
  status = refl;
  restored = refl;
}

-- Whatever the application does with a request, and be it to raise, the middleware logs one line, puts
-- the same request id into the line and into the response, which is the caller's id if it sent one that
-- is not empty, answers 500 to an exception, and leaves the context variables as they were.
pub dispatch-IsTraced :
    (uuid : String) (call_next : Context → Outcome) (request : Request) (before : Context)
    → IsTraced
        (id_of request.incoming uuid)
        request
        before
        (call_next (record before { request_id = id_of request.incoming uuid }))
        (dispatch uuid call_next request before)
unfolding dispatch
dispatch-IsTraced uuid call_next request before =
    answer-IsTraced (id_of request.incoming uuid) request before _
