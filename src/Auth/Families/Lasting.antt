-- ===== src/Auth/Families/Lasting.antt =====
-- A session that is refreshed in time goes on: a chain of refreshes, each with the token of the last.
use tradinghub.Base.{
  eq_iff, ℕ, ◌≤◌, ◌+◌, String, Bool, true, false, ◌||◌, Option, none, some, List, [], ◌∷◌, ◌++◌,
  ◌≡◌, refl, sym, ◌∙◌, ap, arith, ltb, find?, any, same_text,
}
use mathlib.Core.Path.{subst}
use tradinghub.Sql.Rows.{any-update}
use tradinghub.Sql.Search.{find?-last}
use tradinghub.Core.Errors.{Result, ok, err}
use tradinghub.Core.Database.{Work, Store, begin, get_db, finish, commit, rollback}
use tradinghub.Auth.Models.{Session}
use tradinghub.Auth.Crud.Sessions.{session_key, has_hash}
use tradinghub.Auth.Security.Tokens.{refresh_token_lifetime}
use tradinghub.Auth.Services.{AuthSupply, refresh_session}
use tradinghub.Auth.Families.{is_spent, IsAuthConsistent, IsGood}
use tradinghub.Auth.Families.Steps.{with_spent, spend}
use tradinghub.Auth.Families.Actions.{new_pair, session_row, IsGood-refresh_session}
use tradinghub.Auth.Families.Rotation.{rotated, hash_is_taken, refresh_session-rotation}

-- The token finds an unspent session of the family and the user, which expires at the deadline.
pub record IsAlive (hash : String → String) (token : String) (user_id family_id deadline : ℕ)
    (a : Store) : Type 0 where
  pub session : Session
  pub found : find? (has_hash (hash token)) a.tables.sessions ≡ some session
  pub unspent : is_spent session ≡ false
  pub user : session.user_id ≡ user_id
  pub family : session.family_id ≡ family_id
  pub expiry : session.expires_at ≡ deadline

-- Whether a session holds a hash.
abbrev pub holds : Store → String → Bool
holds a h = any (has_hash h) a.tables.sessions

-- Refreshes that come no later than the session before them expires, each with a new token whose hash
-- was not there before.
abbrev pub IsTimely :
    (String → String) → (String → String) → ℕ → (String → Bool) → List AuthSupply → Type 0
IsTimely fold hash deadline taken [] = Unit
IsTimely fold hash deadline taken (s ∷ ss) =
    (s.fold ≡ fold)
    × (s.hash_refresh_token ≡ hash)
    × (s.now ≤ deadline)
    × (taken (hash s.refresh_token) ≡ false)
    × IsTimely fold hash (s.now + refresh_token_lifetime)
        (λ h. taken h || same_text (hash s.refresh_token) h) ss

-- Each refresh presents the token that the one before it handed out; `none` once one is refused.
abbrev pub refresh_each : List AuthSupply → String → Store → Option (String × Store)
refresh_each [] token a = some (token, a)
refresh_each (s ∷ ss) token a =
    let (r, b) = get_db (refresh_session s token) a in
    elim r [ ok pair ↦ refresh_each ss pair.refresh_token b | err e ↦ none ]

finish-IsAuthConsistent {ℓ} :
    {A : Type ℓ} (fold : String → String) (r : Result A) (w : Work)
    → IsGood fold w
    → IsAuthConsistent fold (finish r w).1.tables (finish r w).1.serials
unfolding finish commit rollback
finish-IsAuthConsistent fold (ok a) w h = h.current
finish-IsAuthConsistent fold (err e) w h = h.committed

any-append {ℓ} :
    {A : Type ℓ} (p : A → Bool) (xs ys : List A) → any p (xs ++ ys) ≡ (any p xs || any p ys)
any-append p [] ys = refl
any-append p (x ∷ xs) ys = ground (arith, any-append p xs ys)

same_text_refl : (t : String) → same_text t t ≡ true
same_text_refl t = ground (arith, eq_iff t t)

module _ (s : AuthSupply) (token : String) (user_id family_id deadline : ℕ) (a : Store)
    (h : IsAuthConsistent s.fold a.tables a.serials)
    (alive : IsAlive s.hash_refresh_token token user_id family_id deadline a)
    (in_time : s.now ≤ deadline) (free : hash_is_taken s token a ≡ false) where
  abbrev next : Store
  next = rotated s token a alive.session

  refresh-next : get_db (refresh_session s token) a ≡ (ok (new_pair s alive.session.user_id), next)
  refresh-next =
      let early : ltb alive.session.expires_at s.now ≡ false = ground (arith, alive.expiry) in
      refresh_session-rotation s token a h ∙ rw (alive.found, alive.unspent, early, free) refl

  next-IsAuthConsistent : IsAuthConsistent s.fold next.tables next.serials
  unfolding get_db
  next-IsAuthConsistent =
      subst (λ o. IsAuthConsistent s.fold o.1.tables o.1.serials) refresh-next
        (finish-IsAuthConsistent s.fold _ _
          (IsGood-refresh_session s token (begin a) (record { current = h; committed = h })))

  kept_hashes :
      (k : String) → any (has_hash k) (with_spent a.tables s.now alive.session).sessions ≡ holds a k
  kept_hashes k =
      any-update session_key _ _ alive.session (spend s.now alive.session) a.tables.sessions
        h.sessions_keyed alive.found refl refl

  -- The hashes that were there, and the new one.
  holds-next :
      (k : String)
      → holds next k ≡ (holds a k || same_text (s.hash_refresh_token s.refresh_token) k)
  holds-next k =
      any-append (has_hash k) (with_spent a.tables s.now alive.session).sessions _
      ∙ ap (λ b. b || (same_text (s.hash_refresh_token s.refresh_token) k || false)) (kept_hashes k)
      ∙ ground arith

  next-IsAlive :
      IsAlive s.hash_refresh_token s.refresh_token user_id family_id
        (s.now + refresh_token_lifetime)
        next
  next-IsAlive = record {
    session = session_row s alive.session.user_id alive.session.family_id (begin a);
    found =
        find?-last _ (with_spent a.tables s.now alive.session).sessions _
          (kept_hashes (s.hash_refresh_token s.refresh_token) ∙ free) (same_text_refl _);
    unspent = refl;
    user = alive.user;
    family = alive.family;
    expiry = refl;
  }

abbrev pub last_deadline : ℕ → List AuthSupply → ℕ
last_deadline deadline [] = deadline
last_deadline deadline (s ∷ ss) = last_deadline (s.now + refresh_token_lifetime) ss

module _ (fold hash : String → String) (user_id family_id : ℕ) where
  -- What a chain of refreshes ends in.
  abbrev pub IsLasting : List AuthSupply → ℕ → Option (String × Store) → Type 0
  IsLasting ss deadline none = 1 ≤ 0
  IsLasting ss deadline (some (token, b)) =
      IsAlive hash token user_id family_id (last_deadline deadline ss) b

  lasting :
      (ss : List AuthSupply) (token : String) (a : Store) (deadline : ℕ) (taken : String → Bool)
      → IsAuthConsistent fold a.tables a.serials
      → IsAlive hash token user_id family_id deadline a
      → ((k : String) → holds a k ≡ taken k)
      → IsTimely fold hash deadline taken ss
      → IsLasting ss deadline (refresh_each ss token a)
  lasting [] token a deadline taken h alive same timely = alive
  lasting (s ∷ ss) token a deadline taken h alive same (f, e, in_time, free, later) =
      let h' = subst (λ φ. IsAuthConsistent φ a.tables a.serials) (sym f) h in
      let alive' = subst (λ η. IsAlive η token user_id family_id deadline a) (sym e) alive in
      let free' : hash_is_taken s token a ≡ false =
        same _ ∙ ap (λ η. taken (η s.refresh_token)) e ∙ free in
      let b = next s token user_id family_id deadline a h' alive' in_time free' in
      subst
        (λ o.
          IsLasting (s ∷ ss) deadline
            (elim o.0 [ ok pair ↦ refresh_each ss pair.refresh_token o.1 | err x ↦ none ]))
        (sym (refresh-next s token user_id family_id deadline a h' alive' in_time free'))
        (lasting ss s.refresh_token b (s.now + refresh_token_lifetime)
          (λ k. taken k || same_text (hash s.refresh_token) k)
          (subst (λ φ. IsAuthConsistent φ b.tables b.serials) f
            (next-IsAuthConsistent s token user_id family_id deadline a h' alive' in_time free'))
          (subst
            (λ η. IsAlive η s.refresh_token user_id family_id (s.now + refresh_token_lifetime) b) e
            (next-IsAlive s token user_id family_id deadline a h' alive' in_time free'))
          (λ k.
            holds-next s token user_id family_id deadline a h' alive' in_time free' k
            ∙ ap (λ x. x || same_text (s.hash_refresh_token s.refresh_token) k) (same k)
            ∙ ap (λ η. taken k || same_text (η s.refresh_token) k) e)
          later)

  -- From consistent users and sessions, a chain of refreshes, each with the token that the last one
  -- handed out, no later than it expires, and with a new token of a new hash, never fails: it ends in a
  -- token of the same user and family that is good until the lifetime after the last refresh is over.
  pub refresh_each-IsLasting :
      (ss : List AuthSupply) (token : String) (a : Store) (deadline : ℕ)
      → IsAuthConsistent fold a.tables a.serials
      → IsAlive hash token user_id family_id deadline a
      → IsTimely fold hash deadline (holds a) ss
      → IsLasting ss deadline (refresh_each ss token a)
  refresh_each-IsLasting ss token a deadline h alive timely =
      lasting ss token a deadline (holds a) h alive (λ k. refl) timely
