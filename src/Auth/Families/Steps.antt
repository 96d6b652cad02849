-- ===== src/Auth/Families/Steps.antt =====
-- Each statement on users and sessions keeps the two tables consistent.
use tradinghub.Base.{
  ℕ, suc, String, Bool, true, false, not, some, [], ◌∷◌, ◌++◌, ◌≡◌, refl, ◌≤◌, arith, keep, find?,
  find?-All, any, All, All-map, All-append, All-keep, Pairwise-append, Pairwise-keep,
}
use tradinghub.Sql.{update}
use tradinghub.Sql.Rows.{All-update, Keyed-update, Pairwise-update, All-update_found}
use tradinghub.Core.Database.{Tables, Serials}
use tradinghub.Auth.Models.{User, Session}
use tradinghub.Auth.Crud.Users.{has_email}
use tradinghub.Auth.Crud.Sessions.{session_key, has_hash, in_family}
use tradinghub.Auth.Families.{is_spent, conflict, has_owner, IsAuthConsistent}
use tradinghub.Sql.Search.{any-append, any-false}

abbrev pub spend : ℕ → Session → Session
spend now x = record x { used_at = some now }

-- A spent session conflicts no more than it did.
conflict_spent : (now : ℕ) (x y : Session) → conflict x y ≡ false → conflict (spend now x) y ≡ false
conflict_spent now x y h = ground arith

conflict_with_spent :
    (now : ℕ) (x y : Session) → conflict y x ≡ false → conflict y (spend now x) ≡ false
conflict_with_spent now x y h = ground arith

abbrev pub next_session : Serials → Serials
next_session n = record n { session_serial = suc n.session_serial }

abbrev pub next_user : Serials → Serials
next_user n = record n { user_serial = suc n.user_serial }

abbrev pub without_family : Tables → ℕ → Tables
without_family db f = record db { sessions = keep (λ x. not (in_family f x)) db.sessions }

abbrev pub with_spent : Tables → ℕ → Session → Tables
with_spent db now x = record db { sessions = update session_key (spend now x) db.sessions }

abbrev pub with_session : Tables → Session → Tables
with_session db x = record db { sessions = db.sessions ++ x ∷ [] }

abbrev pub with_user : Tables → User → Tables
with_user db u = record db { users = db.users ++ u ∷ [] }

module _ (fold : String → String) where
  pub IsAuthConsistent-grow :
      (db : Tables) (m n : Serials)
      → m.user_serial ≤ n.user_serial
      → m.session_serial ≤ n.session_serial
      → IsAuthConsistent fold db m
      → IsAuthConsistent fold db n
  IsAuthConsistent-grow db m n gu gs h = record {
    users_keyed = h.users_keyed;
    users_numbered = All-map (λ u lt. omega arith) db.users h.users_numbered;
    emails = h.emails;
    sessions_keyed = h.sessions_keyed;
    sessions_numbered = All-map (λ x lt. omega arith) db.sessions h.sessions_numbered;
    hashes = h.hashes;
    families = h.families;
    owned = h.owned;
  }

  module _ (db : Tables) (n : Serials) (h : IsAuthConsistent fold db n) where
    pub IsAuthConsistent-revoke : (f : ℕ) → IsAuthConsistent fold (without_family db f) n
    IsAuthConsistent-revoke f = record {
      users_keyed = h.users_keyed;
      users_numbered = h.users_numbered;
      emails = h.emails;
      sessions_keyed = Pairwise-keep _ _ db.sessions h.sessions_keyed;
      sessions_numbered = All-keep _ _ db.sessions h.sessions_numbered;
      hashes = Pairwise-keep _ _ db.sessions h.hashes;
      families = Pairwise-keep _ _ db.sessions h.families;
      owned = All-keep _ _ db.sessions h.owned;
    }

    pub IsAuthConsistent-spend :
        (now : ℕ) (q : Session → Bool) (x : Session)
        → find? q db.sessions ≡ some x
        → IsAuthConsistent fold (with_spent db now x) n
    IsAuthConsistent-spend now q x found = record {
      users_keyed = h.users_keyed;
      users_numbered = h.users_numbered;
      emails = h.emails;
      sessions_keyed = Keyed-update session_key (spend now x) db.sessions h.sessions_keyed;
      sessions_numbered =
          All-update session_key _ (spend now x) db.sessions
            (find?-All _ q db.sessions h.sessions_numbered found) h.sessions_numbered;
      hashes =
          Pairwise-update session_key _ q x (spend now x) db.sessions h.sessions_keyed found refl
            (λ y r. r) (λ y r. r) h.hashes;
      families =
          Pairwise-update session_key _ q x (spend now x) db.sessions h.sessions_keyed found refl
            (conflict_spent now x) (conflict_with_spent now x) h.families;
      owned =
          All-update session_key _ (spend now x) db.sessions
            (find?-All _ q db.sessions h.owned found) h.owned;
    }

    -- A new session, numbered by the sequence, of a known hash and user, that conflicts with none.
    pub IsAuthConsistent-session :
        (x : Session)
        → x.id ≡ n.session_serial
        → any (has_hash x.hashed_refresh_token) db.sessions ≡ false
        → has_owner db x ≡ true
        → All (λ y. conflict y x ≡ false) db.sessions
        → IsAuthConsistent fold (with_session db x) (next_session n)
    IsAuthConsistent-session x id fresh own apart = record {
      users_keyed = h.users_keyed;
      users_numbered = h.users_numbered;
      emails = h.emails;
      sessions_keyed =
          Pairwise-append _ db.sessions (x ∷ []) h.sessions_keyed (tt, tt)
            (All-map (λ y lt. (omega arith, tt)) db.sessions h.sessions_numbered);
      sessions_numbered =
          All-append _ db.sessions (x ∷ [])
            (All-map (λ y lt. omega arith) db.sessions h.sessions_numbered) (omega arith, tt);
      hashes =
          Pairwise-append _ db.sessions (x ∷ []) h.hashes (tt, tt)
            (All-map (λ y e. (e, tt)) db.sessions (any-false _ db.sessions fresh));
      families =
          Pairwise-append _ db.sessions (x ∷ []) h.families (tt, tt)
            (All-map (λ y e. (e, tt)) db.sessions apart);
      owned = All-append _ db.sessions (x ∷ []) h.owned (own, tt);
    }

    -- A new user, numbered by the sequence, whose email no other has.
    pub IsAuthConsistent-user :
        (u : User)
        → u.id ≡ n.user_serial
        → any (has_email fold u.email) db.users ≡ false
        → IsAuthConsistent fold (with_user db u) (next_user n)
    IsAuthConsistent-user u id fresh = record {
      users_keyed =
          Pairwise-append _ db.users (u ∷ []) h.users_keyed (tt, tt)
            (All-map (λ y lt. (omega arith, tt)) db.users h.users_numbered);
      users_numbered =
          All-append _ db.users (u ∷ []) (All-map (λ y lt. omega arith) db.users h.users_numbered)
            (omega arith, tt);
      emails =
          Pairwise-append _ db.users (u ∷ []) h.emails (tt, tt)
            (All-map (λ y e. (e, tt)) db.users (any-false _ db.users fresh));
      sessions_keyed = h.sessions_keyed;
      sessions_numbered = h.sessions_numbered;
      hashes = h.hashes;
      families = h.families;
      owned = All-map (λ x e. any-append _ db.users (u ∷ []) e) db.sessions h.owned;
    }

    -- Once the unspent session of a family is spent, a successor of its user conflicts with none.
    pub successor_apart :
        (now : ℕ) (q : Session → Bool) (x y : Session)
        → find? q db.sessions ≡ some x
        → is_spent x ≡ false
        → y.family_id ≡ x.family_id
        → y.user_id ≡ x.user_id
        → All (λ z. conflict z y ≡ false) (update session_key (spend now x) db.sessions)
    successor_apart now q x y found live family user =
        All-update_found session_key (λ z. conflict z y ≡ false) (λ a b. conflict a b ≡ false) q x
          (spend now x) db.sessions h.sessions_keyed found refl (ground arith) (λ z r. ground arith)
          (λ z r. ground arith) h.families
