-- ===== src/Auth/Tests/Chains.antt =====
-- Chains of requests to auth: refreshes, attempts in one window, a registration and a login.
use tradinghub.Base.{◌≤◌, ℕ, String, List, [], ◌∷◌, ◌≡◌, refl, arith}
use tradinghub.Core.Errors.{ok}
use tradinghub.Core.Database.{Store, get_db}
use tradinghub.Auth.Models.{User}
use tradinghub.Auth.Security.Tokens.{refresh_token_lifetime}
use tradinghub.Auth.Security.RateLimit.{count_login_attempt}
use tradinghub.Auth.Services.{AuthSupply, login_counted}
use tradinghub.Auth.Families.Actions.{new_pair}
use tradinghub.Auth.Families.Lasting.{IsAlive, IsLasting, refresh_each, refresh_each-IsLasting}
use tradinghub.Auth.Limits.Window.{Attempt, count_passed, count_passed-within}
use tradinghub.Auth.Families.Enrolment.{IsHasher, register_counted-login_counted}
use tradinghub.Auth.Services.{register_counted}
use tradinghub.Auth.Tests.Server.{itself}
use tradinghub.Auth.Tests.Server.{server, server_laws, server_timed}
use tradinghub.Auth.Families.Opening.{first_pair, opened}
use tradinghub.Auth.Tests.{same, hasher, supply, first, store, store-IsAuthConsistent, idle}

first-IsAlive : IsAlive same "t1" 1 5 500 store
first-IsAlive = record {
  session = first;
  found = refl;
  unspent = refl;
  user = refl;
  family = refl;
  expiry = refl;
}

abbrev two_refreshes : List AuthSupply
two_refreshes = supply 100 "t2" ∷ supply 600000000000 "t3" ∷ []

refresh_each-IsLasting_example :
    IsLasting same same 1 5 two_refreshes 500 (refresh_each two_refreshes "t1" store)
unfolding refresh_token_lifetime
refresh_each-IsLasting_example =
    refresh_each-IsLasting same same 1 5 two_refreshes "t1" store 500 store-IsAuthConsistent
      first-IsAlive (refl, refl, omega arith, refl, (refl, refl, omega arith, refl, tt))

abbrev attempt_at : ℕ → String → Attempt
attempt_at now email = record { now = now; email = email; ip = "10.0.0.1" }

abbrev later_attempts : List Attempt
later_attempts = attempt_at 5 "ada@example.com" ∷ attempt_at 6 "bob@example.com" ∷ []

count_passed-within_example :
    count_passed server server_laws server_timed same "ada@example.com"
      (attempt_at 0 "ada@example.com" ∷ later_attempts)
      idle
    ≤ 10
unfolding server_laws count_login_attempt
count_passed-within_example =
    count_passed-within server server_laws server_timed same "ada@example.com"
      (attempt_at 0 "ada@example.com") later_attempts idle refl refl
      ((omega arith, omega arith, refl, (omega arith, omega arith, refl, tt)))

abbrev joined : Store
joined = (get_db (register_counted (supply 100 "t2") "bob@example.com" "pass") store).1

abbrev bob : User
bob = record { id = 2; email = "bob@example.com"; password_hash = "pass" }

registered :
    get_db (register_counted (supply 100 "t2") "bob@example.com" "pass") store
    ≡ (ok (bob, new_pair (supply 100 "t2") 2), joined)
unfolding get_db register_counted
registered = refl

hasher-IsHasher : IsHasher hasher
hasher-IsHasher password = rw (itself password) refl

register_counted-login_counted_example :
    get_db (login_counted (supply 200 "t3") "bob@example.com" "pass") joined
    ≡ (ok (bob, first_pair (supply 200 "t3") joined bob), opened (supply 200 "t3") joined bob)
unfolding get_db register_counted
register_counted-login_counted_example =
    register_counted-login_counted (supply 100 "t2") (supply 200 "t3") "bob@example.com"
      "bob@example.com" "pass" store joined bob (new_pair (supply 100 "t2") 2) hasher-IsHasher refl
      refl refl registered refl
