-- ===== src/Auth/Families/Replay.antt =====
-- What a second use of a refresh token does, and what is left of a family after a logout.
use mathlib.Core.List.{append-nil}
use tradinghub.Base.{
  same_text_comm, ap, String, true, false, not, ◌==◌, same_text, eq_iff, ltb, none, some, [], ◌∷◌,
  ◌≡◌, refl, sym, ◌∙◌, arith, inl, inr, Bool-cases, Option-cases, find?, find?-holds, any, keep,
  keep-append,
}
use tradinghub.Sql.Rows.{find?-update, any-update}
use tradinghub.Sql.Search.{find?-append, find?-keep_lost, find?-keep-none}
use tradinghub.Core.Errors.{ok}
use tradinghub.Core.Database.{Store, begin, get_db, finish, commit, rollback}
use tradinghub.Auth.Models.{Session}
use tradinghub.Auth.Crud.Sessions.{session_key, has_hash, in_family}
use tradinghub.Auth.Services.{AuthSupply, TokenPair, refresh_session, logout_user}
use tradinghub.Auth.Families.{is_spent, IsAuthConsistent}
use tradinghub.Auth.Families.Steps.{spend, with_spent}
use tradinghub.Auth.Families.Actions.{
  presented, new_pair, session_row, refresh-unknown, refresh-spent, logout-known,
}
use tradinghub.Auth.Families.Rotation.{
  refused, revoke, rotated, rotation, hash_is_taken, refresh_session-rotation,
}

module _ (s : AuthSupply) (raw : String) (a : Store) where
  -- What a successful refresh says of the session that it found.
  pub record Refreshed (pair : TokenPair) (b : Store) : Type 0 where
    pub session : Session
    pub found : presented s raw (begin a) ≡ some session
    pub unspent : is_spent session ≡ false
    pub early : ltb session.expires_at s.now ≡ false
    pub free : hash_is_taken s raw a ≡ false
    pub pair_is : pair ≡ new_pair s session.user_id
    pub after : b ≡ rotated s raw a session

  rotation-ok :
      (pair : TokenPair) (b : Store)
      → rotation s raw a (presented s raw (begin a)) ≡ (ok pair, b)
      → Refreshed pair b
  rotation-ok pair b e = elim (Option-cases (presented s raw (begin a))) [
    | inl unknown ↦ absurd (ground (arith, e, unknown))
    | inr (x, found) ↦ elim (Bool-cases (is_spent x)) [
      | inl spent ↦ absurd (ground (arith, e, found, spent))
      | inr unspent ↦ elim (Bool-cases (ltb x.expires_at s.now)) [
        | inl late ↦ absurd (ground (arith, e, found, unspent, late))
        | inr early ↦ elim (Bool-cases (hash_is_taken s raw a)) [
          | inl taken ↦ absurd (ground (arith, e, found, unspent, early, taken))
          | inr free ↦ record {
            session = x;
            found = found;
            unspent = unspent;
            early = early;
            free = free;
            pair_is = ground (arith, e, found, unspent, early, free);
            after = ground (arith, e, found, unspent, early, free);
          }
        ]
      ]
    ]
  ]

  -- A session that the token finds and that is spent is answered by the end of its family.
  pub get_db-spent :
      (x : Session)
      → presented s raw (begin a) ≡ some x
      → is_spent x ≡ true
      → get_db (refresh_session s raw) a ≡ refused (revoke x.family_id a)
  unfolding get_db finish rollback
  get_db-spent x e spent = rw (refresh-spent s raw (begin a) x e spent) refl

  pub get_db-unknown :
      presented s raw (begin a) ≡ none → get_db (refresh_session s raw) a ≡ refused a
  unfolding get_db finish rollback
  get_db-unknown e = rw (refresh-unknown s raw (begin a) e) refl

-- Sessions of different hashes are not both found by one.
one_hash :
    (t : String) (x y : Session)
    → has_hash t x ≡ true
    → same_text x.hashed_refresh_token y.hashed_refresh_token ≡ false
    → has_hash t y ≡ false
one_hash t x y here other =
    let is_t : x.hashed_refresh_token ≡ t = (eq_iff x.hashed_refresh_token t).0 here in
    same_text_comm y.hashed_refresh_token t
    ∙ sym (ap (λ u. same_text u y.hashed_refresh_token) is_t)
    ∙ other

get_db-logout :
    (s : AuthSupply) (raw : String) (a : Store) (x : Session)
    → presented s raw (begin a) ≡ some x
    → get_db (logout_user s raw) a ≡ (ok tt, revoke x.family_id a)
unfolding get_db finish commit
get_db-logout s raw a x e = rw (logout-known s raw (begin a) x e) refl

module _ (s : AuthSupply) (raw : String) (a : Store) (x : Session)
    (h : IsAuthConsistent s.fold a.tables a.serials) (e : presented s raw (begin a) ≡ some x) where
  abbrev b : Store
  b = rotated s raw a x

  found_spent : find? (has_hash (s.hash_refresh_token raw)) b.tables.sessions ≡ some (spend s.now x)
  found_spent = find?-append _ (with_spent a.tables s.now x).sessions _ (
      find?-update session_key _ x (spend s.now x) a.tables.sessions h.sessions_keyed e refl
        (find?-holds _ a.tables.sessions e))

  -- The successor's hash is in no session outside the family.
  successor_lost :
      hash_is_taken s raw a ≡ false
      → find?
          (has_hash (s.hash_refresh_token s.refresh_token))
          (revoke x.family_id b).tables.sessions
        ≡ none
  successor_lost free =
      let others = (with_spent a.tables s.now x).sessions in
      let outside = λ (y : Session). not (in_family x.family_id y) in
      let none_has : any (has_hash (s.hash_refresh_token s.refresh_token)) others ≡ false =
        any-update session_key _ _ x (spend s.now x) a.tables.sessions h.sessions_keyed e refl refl
        ∙ free in
      let own : (x.family_id == x.family_id) ≡ true = ground arith in
      rw
        (
          keep-append outside others (session_row s x.user_id x.family_id (begin a) ∷ []),
          own,
          append-nil (keep outside others),
        )
        (find?-keep-none outside _ others none_has)

-- From consistent sessions, and while tokens are hashed by one function, a token that refreshed once is
-- refused the second time, by whichever request and at whatever time, and that request deletes and
-- commits the whole family of the session that the token found, so the token that the first request
-- handed out is refused as well, and changes nothing.
pub refresh_session-replay :
    (s t t' : AuthSupply) (raw : String) (a b : Store) (pair : TokenPair)
    → IsAuthConsistent s.fold a.tables a.serials
    → t.hash_refresh_token ≡ s.hash_refresh_token
    → t'.hash_refresh_token ≡ s.hash_refresh_token
    → get_db (refresh_session s raw) a ≡ (ok pair, b)
    → (x : Session) × (presented s raw (begin a) ≡ some x)
      × (get_db (refresh_session t raw) b ≡ refused (revoke x.family_id b))
      × (get_db (refresh_session t' pair.refresh_token) (revoke x.family_id b)
          ≡ refused (revoke x.family_id b))
refresh_session-replay s t t' raw a b pair h same same' e =
    let r = rotation-ok s raw a pair b (sym (refresh_session-rotation s raw a h) ∙ e) in
    let x = r.session in
    (
      x,
      r.found,
      get_db-spent t raw b (spend s.now x) (rw (same, r.after) (found_spent s raw a x h r.found))
          refl,
      get_db-unknown t' pair.refresh_token (revoke x.family_id b)
          (rw (same', r.pair_is, r.after) (successor_lost s raw a x h r.found r.free)),
    )

-- From consistent sessions, and while tokens are hashed by one function, after a logout with any token
-- of a family no token of that family refreshes: each is refused, and the store stays as the logout
-- left it.
pub logout_user-refresh_session :
    (s t : AuthSupply) (raw raw' : String) (a : Store) (x y : Session)
    → IsAuthConsistent s.fold a.tables a.serials
    → t.hash_refresh_token ≡ s.hash_refresh_token
    → presented s raw (begin a) ≡ some x
    → presented s raw' (begin a) ≡ some y
    → y.family_id ≡ x.family_id
    → get_db (refresh_session t raw') (get_db (logout_user s raw) a).1
      ≡ refused (get_db (logout_user s raw) a).1
logout_user-refresh_session s t raw raw' a x y h same e e' family = rw (get_db-logout s raw a x e) (
    get_db-unknown t raw' (revoke x.family_id a)
      (rw same (find?-keep_lost _ _ _ a.tables.sessions (one_hash _) h.hashes e' (ground arith))))
