-- ===== src/Auth/Crud/Users.antt =====
-- auth/crud/user.py. `fold` is the case folding of CITEXT.
use tradinghub.Base.{
  ℕ, suc, String, Bool, ◌==◌, same_text, Option, [], ◌∷◌, ◌++◌, find?, any, if◌then◌else◌,
}
use tradinghub.Core.Errors.{ok, err, integrity_error}
use tradinghub.Core.Database.{Work, Action}
use tradinghub.Auth.Models.{User}

abbrev pub has_email : (String → String) → String → User → Bool
has_email fold email u = same_text (fold u.email) (fold email)

unfoldable pub get_user_by_email : (String → String) → String → Action (Option User)
get_user_by_email fold email w = (ok (find? (has_email fold email) w.users), w)

-- The flush takes an id from the sequence, whether or not the unique email accepts the row.
unfoldable pub create_user : (String → String) → String → String → Action User
create_user fold email password_hash w =
    let user : User = record {
      id = w.serials.user_serial;
      email = email;
      password_hash = password_hash;
    } in
    let w' : Work = record w {
      serials = record w.serials { user_serial = suc w.serials.user_serial };
    } in
    if any (has_email fold email) w.users
    then (err integrity_error, w')
    else (ok user, record w' { current = record w.current { users = w.users ++ user ∷ [] } })

unfoldable pub get_user_by_id : ℕ → Action (Option User)
get_user_by_id user_id w = (ok (find? (λ u. u.id == user_id) w.users), w)
