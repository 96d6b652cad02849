-- ===== src/Auth/Cookies.antt =====
-- The cookies of auth/routes.py under the settings that core/config.py accepts.
use tradinghub.Base.{String, true, Option, map, ◌≡◌, refl, arith, All}
use tradinghub.Core.Config.{Settings, is_production, accepts_settings}
use tradinghub.Auth.Services.{TokenPair}
use tradinghub.Auth.Routes.{Cookie, set_auth_cookies, clear_auth_cookies}

-- What a browser tells cookies apart by.
abbrev pub identity : Cookie → String × String × Option String
identity c = (c.name, c.path, c.domain)

-- No script reads it, and it goes over HTTPS only.
abbrev pub IsGuarded : Cookie → Type 0
IsGuarded c = (c.secure ≡ true) × (c.http_only ≡ true)

secure_in_production :
    (s : Settings)
    → accepts_settings s ≡ true
    → is_production s.environment ≡ true
    → s.cookie_secure ≡ true
unfolding accepts_settings
secure_in_production s ok live = ground arith

-- In production, under accepted settings, the cookies that signing in sets are guarded, signing out
-- sends guarded cookies of the same names, paths and domain, in the same order, that expire at once.
pub clear_auth_cookies-set_auth_cookies :
    (s : Settings) (pair : TokenPair)
    → accepts_settings s ≡ true
    → is_production s.environment ≡ true
    → All IsGuarded (set_auth_cookies s pair)
      × All IsGuarded (clear_auth_cookies s)
      × (map identity (clear_auth_cookies s) ≡ map identity (set_auth_cookies s pair))
      × All (λ c. c.max_age ≡ 0) (clear_auth_cookies s)
unfolding set_auth_cookies clear_auth_cookies
clear_auth_cookies-set_auth_cookies s pair ok live =
    let secure = secure_in_production s ok live in
    (
      ((secure, refl), ((secure, refl), tt)),
      ((secure, refl), ((secure, refl), tt)),
      refl,
      (refl, (refl, tt)),
    )
