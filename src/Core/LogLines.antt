-- ===== src/Core/LogLines.antt =====
-- Which records become lines, and through which handler (core/logging.py).
pub mod Fields
use tradinghub.Base.{
  length, ◌<◌, String, Bool, true, false, not, ◌||◌, Option, none, some, or_else, is_some, List, [],
  ◌∷◌, leb, any, find?, keep, All, find?-All, find?-holds, any-find?, same_text, eq_iff,
  if◌then◌else◌, ◌≡◌, refl, sym, ap, ◌∙◌, arith, inl, inr, Bool-cases, Option-cases,
}
use tradinghub.Core.Config.{Settings, LogLevel, warning}
use tradinghub.Core.Middleware.{Context}
use tradinghub.Core.Logging.{
  LoggerName, same_name, LoggerConfig, configured_loggers, uvicorn_access, build_logging_config,
  config_of, outlets, effective_level, severity, written_by, put, get, update_dict, standard_fields,
  LogRecord, is_extra, filter, payload, with_exception,
}

same_name-eq : (a b : LoggerName) → same_name a b ≡ true → a ≡ b
same_name-eq [] [] h = refl
same_name-eq [] (y ∷ ys) h = cc
same_name-eq (x ∷ xs) [] h = cc
same_name-eq (x ∷ xs) (y ∷ ys) h = ground (arith, eq_iff x y, same_name-eq xs ys)

-- uvicorn.access and what is below it.
abbrev pub is_muted : LoggerName → Bool
is_muted [] = false
is_muted (part ∷ parent) = same_name uvicorn_access (part ∷ parent) || is_muted parent

-- An entry has no handlers of its own, and only that of uvicorn.access keeps records from its parent.
abbrev IsOrdinary : LoggerName × LoggerConfig → Type 0
IsOrdinary e = (e.1.handlers ≡ []) × (e.1.propagate ≡ not (same_name uvicorn_access e.0))

configured_loggers-IsOrdinary : All IsOrdinary configured_loggers
configured_loggers-IsOrdinary = (
  (refl, refl),
  (
    (refl, refl),
    (
      (refl, refl),
      (
        (refl, refl),
        (
          (refl, refl),
          (
            (refl, refl),
            (
              (refl, refl),
              (
                (refl, refl),
                (
                  (refl, refl),
                  (
                    (refl, refl),
                    (
                      (refl, refl),
                      (
                        (refl, refl),
                        ((refl, refl), ((refl, refl), ((refl, refl), ((refl, refl), tt)))),
                      ),
                    ),
                  ),
                ),
              ),
            ),
          ),
        ),
      ),
    ),
  ),
)

own_config :
    (settings : Settings) (name : LoggerName)
    → (let own = config_of (build_logging_config settings) name in
        (own.handlers ≡ []) × (own.propagate ≡ not (same_name uvicorn_access name)))
unfolding build_logging_config
own_config settings name =
    elim (Option-cases (find? (λ e. same_name e.0 name) configured_loggers)) [
      | inl missing ↦
          let nowhere =
            any-find? (λ e. same_name e.0 name) configured_loggers ∙ ap is_some missing in
          rw missing (refl, ground (arith, nowhere))
      | inr (e, found) ↦
          let ordinary =
            find?-All IsOrdinary (λ e. same_name e.0 name) configured_loggers
              configured_loggers-IsOrdinary found in
          let same =
            same_name-eq e.0 name
              (find?-holds (λ e. same_name e.0 name) configured_loggers found) in
          rw found (ordinary.0, ordinary.1 ∙ ap (λ n. not (same_name uvicorn_access n)) same)
    ]

-- A record of any logger comes to the one handler, once, unless it is a record of uvicorn.access or of
-- a logger below it, which comes to none.
pub outlets-build_logging_config :
    (settings : Settings) (name : LoggerName)
    → outlets (build_logging_config settings) name ≡ (if is_muted name then [] else "stdout" ∷ [])
unfolding build_logging_config
outlets-build_logging_config settings [] = refl
outlets-build_logging_config settings (part ∷ parent) =
    let (no_handlers, up) = own_config settings (part ∷ parent) in
    rw (no_handlers, up, outlets-build_logging_config settings parent) (ground arith)

abbrev pub sql_engine : LoggerName
sql_engine = "engine" ∷ "sqlalchemy" ∷ []

configured_loggers-IsShort : All (λ e. leb (length e.0) 2 ≡ true) configured_loggers
configured_loggers-IsShort = (
  refl,
  (
    refl,
    (
      refl,
      (
        refl,
        (
          refl,
          (
            refl,
            (refl, (refl, (refl, (refl, (refl, (refl, (refl, (refl, (refl, (refl, tt)))))))))),
          ),
        ),
      ),
    ),
  ),
)

-- The logger of the engine has a level, and the ones right below it have none of their own.
engine_level :
    (settings : Settings) (part : String)
    → effective_level (build_logging_config settings) (part ∷ sql_engine) ≡ warning
unfolding build_logging_config
engine_level settings part =
    elim (Option-cases (find? (λ e. same_name e.0 (part ∷ sql_engine)) configured_loggers)) [
      | inl missing ↦ rw missing refl
      | inr (e, found) ↦
          let short =
            find?-All (λ e. leb (length e.0) 2 ≡ true) (λ e. same_name e.0 (part ∷ sql_engine))
              configured_loggers configured_loggers-IsShort found in
          let same =
            same_name-eq e.0 (part ∷ sql_engine)
              (find?-holds (λ e. same_name e.0 (part ∷ sql_engine)) configured_loggers found) in
          let no : true ≡ false = sym short ∙ ap (λ n. leb (length n) 2) same in absurd (cc)
    ]

-- Whatever the settings, no record of the database engine below a warning is written, which would hold
-- the statements and the rows: not of its logger, nor of one right below it.
pub written_by-sql_engine :
    (settings : Settings) (part : String) (level : LogLevel)
    → severity level < severity warning
    → (written_by (build_logging_config settings) sql_engine level ≡ [])
      × (written_by (build_logging_config settings) (part ∷ sql_engine) level ≡ [])
unfolding build_logging_config
written_by-sql_engine settings part level h =
    let low : leb (severity warning) (severity level) ≡ false = ground (arith, h) in
    (rw low refl, rw (engine_level settings part, low) refl)
