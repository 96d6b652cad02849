-- ===== src/Auth/Crud/Sessions.antt =====
-- auth/crud/session.py. A lock on a row adds nothing to one transaction at a time.
use tradinghub.Base.{
  ℕ, suc, String, Bool, not, ◌&&◌, ◌==◌, same_text, Option, none, some, [], ◌∷◌, ◌++◌, keep, find?,
  any, if◌then◌else◌,
}
use tradinghub.Sql.{update}
use tradinghub.Core.Errors.{ok, err, integrity_error}
use tradinghub.Core.Database.{Tables, Work, Action}
use tradinghub.Auth.Models.{User, Session}

abbrev pub session_key : Session → ℕ
session_key x = x.id

abbrev pub has_hash : String → Session → Bool
has_hash hashed_refresh_token x = same_text x.hashed_refresh_token hashed_refresh_token

unfoldable pub lock_session_by_token_hash : String → Action (Option Session)
lock_session_by_token_hash hashed_refresh_token w =
    (ok (find? (has_hash hashed_refresh_token) w.sessions), w)

-- The foreign key to users and the unique hash.
abbrev pub session_allowed : Tables → ℕ → String → Bool
session_allowed db user_id hashed_refresh_token =
    any (λ (u : User). u.id == user_id) db.users
    && not (any (has_hash hashed_refresh_token) db.sessions)

unfoldable pub create_session : ℕ → ℕ → String → ℕ → Action Session
create_session user_id family_id hashed_refresh_token expires_at w =
    let session : Session = record {
      id = w.serials.session_serial;
      user_id = user_id;
      family_id = family_id;
      hashed_refresh_token = hashed_refresh_token;
      used_at = none;
      expires_at = expires_at;
    } in
    let w' : Work = record w {
      serials = record w.serials { session_serial = suc w.serials.session_serial };
    } in
    if session_allowed w.current user_id hashed_refresh_token
    then (
      ok session,
      record w' { current = record w.current { sessions = w.sessions ++ session ∷ [] } },
    )
    else (err integrity_error, w')

-- The attribute is written by the next flush.
unfoldable pub mark_session_used : ℕ → Session → Action (Unit {0})
unfolding update
mark_session_used now session w = (
  ok tt,
  record w {
    current = record w.current {
      sessions = update session_key (record session { used_at = some now }) w.sessions;
    };
  },
)

abbrev pub in_family : ℕ → Session → Bool
in_family family_id x = x.family_id == family_id

-- DELETE FROM sessions WHERE family_id = …
unfoldable pub revoke_family : ℕ → Action (Unit {0})
revoke_family family_id w = (
  ok tt,
  record w {
    current = record w.current { sessions = keep (λ x. not (in_family family_id x)) w.sessions };
  },
)
