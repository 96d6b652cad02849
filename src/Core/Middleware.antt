-- ===== src/Core/Middleware.antt =====
-- core/middleware.py: the context of a request, its access line, and the answer to an unexpected
-- failure. call_next runs in another task, so what it sets in the context variables stays there.
use Prim.Native.String.{◌++◌ as text_append}
use tradinghub.Base.{ℕ, String, Bool, Option, none, some, List, [], ◌∷◌, same_text, if◌then◌else◌}
use tradinghub.Core.Config.{LogLevel, debug, info, error}
use tradinghub.Core.Rendering.{ErrorResponse, error_response}

-- core/logging.py: the value of a context variable that is not set.
abbrev pub unset : String
unset = "-"

-- The two context variables.
pub record Context : Type 0 where
  pub request_id : String
  pub user_id : String

-- A line of the access log, with what ContextFilter stamps on it.
pub record LogLine : Type 0 where
  pub level : LogLevel
  pub method : String
  pub path : String
  pub client_ip : Option String
  pub status_code : Option ℕ
  pub stamp : Context

pub record Request : Type 0 where
  pub method : String
  pub path : String
  pub client : Option String
  -- the X-Request-ID header
  pub incoming : Option String

-- What a response is made of here: its status, and its X-Request-ID header.
pub record Response : Type 0 where
  pub status_code : ℕ
  pub request_id : Option String
  pub error_message : Option String

-- What call_next does: it returns a response, with the user id that it left in request.state if any,
-- or it raises.
pub data Outcome : Type 0 where
  responded : ℕ → Option String → Outcome
  raised : Outcome

abbrev pub is_quiet : String → Bool
is_quiet path = same_text path "/health"

-- `incoming or uuid4().hex`
abbrev pub id_of : Option String → String → String
id_of none uuid = uuid
id_of (some incoming) uuid = if same_text incoming "" then uuid else incoming

abbrev pub state_user : Option String → String
state_user none = unset
state_user (some u) = u

abbrev pub line_of : Request → LogLevel → Option ℕ → Context → LogLine
line_of request level status context = record {
  level = level;
  method = request.method;
  path = request.path;
  client_ip = request.client;
  status_code = status;
  stamp = context;
}

abbrev pub internal_error : String → ErrorResponse
internal_error id =
    error_response 500 "internal_error" (text_append "Internal error. Reference: " id) []

-- The body of the `try`, in the context with the id: the response, the line, and the context.
abbrev pub answer : Request → Outcome → Context → Response × List LogLine × Context
answer request raised context = (
  record {
    status_code = (internal_error context.request_id).status;
    request_id = some context.request_id;
    error_message = some (internal_error context.request_id).error_message;
  },
  line_of request error none context ∷ [],
  context,
)
answer request (responded status user) context =
    let level = if is_quiet request.path then debug else info in
    -- user_id.set
    let named = record context { user_id = state_user user } in
    (
      record { status_code = status; request_id = some named.request_id; error_message = none },
      line_of request level (some status) named ∷ [],
      -- user_id.reset
      record named { user_id = context.user_id },
    )

-- `dispatch`. The `finally` resets the request id.
unfoldable pub dispatch :
    String → (Context → Outcome) → Request → Context → Response × List LogLine × Context
dispatch uuid call_next request before =
    let current_id = id_of request.incoming uuid in
    let during = record before { request_id = current_id } in
    let (response, lines, after) = answer request (call_next during) during in
    (response, lines, record after { request_id = before.request_id })
