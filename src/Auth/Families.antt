-- ===== src/Auth/Families.antt =====
-- What the users and the sessions tables promise: a login family is one user's chain of refresh
-- tokens, of which all but one at most are spent.
pub mod Steps
pub mod Actions
pub mod SignIn
pub mod Opening
pub mod Keeping
pub mod Requests
pub mod Frame
pub mod Rotation
pub mod Replay
pub mod Lasting
pub mod Enrolment
use tradinghub.Base.{
  ℕ, String, Bool, true, false, not, ◌&&◌, ◌||◌, ◌==◌, same_text, is_some, ◌≡◌, ◌≢◌, ◌<◌, any, All,
  Pairwise,
}
use tradinghub.Sql.Rows.{Keyed}
use tradinghub.Core.Database.{Tables, Serials, Work}
use tradinghub.Auth.Models.{User, Session}
use tradinghub.Auth.Crud.Sessions.{session_key}

abbrev pub user_key : User → ℕ
user_key u = u.id

abbrev pub is_spent : Session → Bool
is_spent x = is_some x.used_at

-- Two sessions of one family that are of two users, or both unspent.
abbrev pub conflict : Session → Session → Bool
conflict x y =
    x.family_id == y.family_id
    && (not (x.user_id == y.user_id) || not (is_spent x) && not (is_spent y))

abbrev pub has_owner : Tables → Session → Bool
has_owner db x = any (λ u. user_key u == x.user_id) db.users

pub record IsAuthConsistent (fold : String → String) (db : Tables) (n : Serials) : Type 0 where
  pub users_keyed : Keyed user_key db.users
  pub users_numbered : All (λ u. user_key u < n.user_serial) db.users
  pub emails : Pairwise (λ a b. same_text (fold a.email) (fold b.email) ≡ false) db.users
  pub sessions_keyed : Keyed session_key db.sessions
  pub sessions_numbered : All (λ x. session_key x < n.session_serial) db.sessions
  pub hashes :
      Pairwise (λ x y. same_text x.hashed_refresh_token y.hashed_refresh_token ≡ false) db.sessions
  pub families : Pairwise (λ x y. conflict x y ≡ false) db.sessions
  pub owned : All (λ x. has_owner db x ≡ true) db.sessions

-- Both what is committed and what the transaction sees are consistent.
pub record IsGood (fold : String → String) (w : Work) : Type 0 where
  pub current : IsAuthConsistent fold w.current w.serials
  pub committed : IsAuthConsistent fold w.committed w.serials

-- The uuid names no family yet.
abbrev pub IsNewFamily : ℕ → Tables → Type 0
IsNewFamily uuid db = All (λ x. (x.family_id == uuid) ≡ false) db.sessions
