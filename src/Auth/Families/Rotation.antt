-- ===== src/Auth/Families/Rotation.antt =====
-- refresh_session and logout_user as whole transactions: what a token is answered, and what becomes
-- of its family.
use tradinghub.Sql.Rows.{any-update}
use tradinghub.Auth.Families.Steps.{spend}
use tradinghub.Auth.Crud.Sessions.{session_key}
use tradinghub.Base.{
  find?-All, ℕ, String, Bool, true, false, ltb, Option, none, some, ◌≡◌, refl, inl, inr, Bool-cases,
  Option-cases, any, if◌then◌else◌,
}
use tradinghub.Core.Errors.{Result, ok, err, app_error, invalid_session, integrity_error}
use tradinghub.Core.Database.{Store, begin, get_db, finish, commit, rollback}
use tradinghub.Auth.Models.{Session}
use tradinghub.Auth.Crud.Sessions.{has_hash}
use tradinghub.Auth.Services.{AuthSupply, TokenPair, refresh_session}
use tradinghub.Auth.Families.{is_spent, has_owner, IsAuthConsistent}
use tradinghub.Auth.Families.Steps.{without_family, with_session, next_session}
use tradinghub.Auth.Families.Actions.{
  session_row, new_pair, presented, refresh-unknown, refresh-spent, refresh-expired, refresh-live,
  issue_token_pair_lem, spent_now, may_issue,
}

abbrev pub refused : Store → Result TokenPair × Store
refused a = (err (app_error invalid_session), a)

abbrev pub revoke : ℕ → Store → Store
revoke f a = record a { tables = without_family a.tables f }

module _ (s : AuthSupply) (raw : String) (a : Store) where
  -- A successor's row beside the spent one.
  abbrev pub rotated : Session → Store
  rotated x =
      let spent = spent_now s raw (begin a) x in
      record {
        tables = with_session spent.current (session_row s x.user_id x.family_id spent);
        serials = next_session a.serials;
      }

  -- Two texts with one hash: the insert fails, and only the sequence has moved.
  abbrev pub collided : Result TokenPair × Store
  collided = (err integrity_error, record a { serials = next_session a.serials })

  abbrev pub hash_is_taken : Bool
  hash_is_taken = any (has_hash (s.hash_refresh_token s.refresh_token)) a.tables.sessions

  -- The rule of rotation.
  abbrev pub rotate : Session → Result TokenPair × Store
  rotate x =
      if is_spent x
      then refused (revoke x.family_id a)
      else if ltb x.expires_at s.now
      then refused a
      else if hash_is_taken
      then collided
      else (ok (new_pair s x.user_id), rotated x)

  abbrev pub rotation : Option Session → Result TokenPair × Store
  rotation none = refused a
  rotation (some x) = rotate x

  -- A refresh, committed or rolled back, does what the rule says of the session that holds the hash of
  -- the presented token: unknown and expired tokens are refused and change nothing, a spent one is
  -- refused and its family is gone from the store, and a live one is spent and gets a successor in its
  -- family. From consistent sessions only a hash that is taken can fail.
  pub refresh_session-rotation :
      IsAuthConsistent s.fold a.tables a.serials
      → get_db (refresh_session s raw) a ≡ rotation (presented s raw (begin a))
  unfolding get_db finish commit rollback
  refresh_session-rotation h = elim (Option-cases (presented s raw (begin a))) [
    | inl e ↦ rw (e, refresh-unknown s raw (begin a) e) refl
    | inr (x, e) ↦ elim (Bool-cases (is_spent x)) [
      | inl spent ↦ rw (e, spent, refresh-spent s raw (begin a) x e spent) refl
      | inr unspent ↦ elim (Bool-cases (ltb x.expires_at s.now)) [
        | inl late ↦ rw (e, unspent, late, refresh-expired s raw (begin a) x e unspent late) refl
        | inr early ↦
            let v = spent_now s raw (begin a) x in
            let own : has_owner a.tables x ≡ true =
              find?-All _ (has_hash (s.hash_refresh_token raw)) a.tables.sessions h.owned e in
            let as_before : any (has_hash (s.hash_refresh_token s.refresh_token)) v.sessions
                ≡ hash_is_taken =
              any-update session_key _ _ x (spend s.now x) a.tables.sessions h.sessions_keyed e refl
                refl in
            elim (Bool-cases hash_is_taken) [
              | inl taken ↦
                  let no : may_issue s x.user_id v ≡ false = rw (own, as_before, taken) refl in
                  rw
                    (
                      e,
                      unspent,
                      early,
                      taken,
                      refresh-live s raw (begin a) x e unspent early,
                      issue_token_pair_lem s x.user_id x.family_id v,
                      no,
                    )
                    refl
              | inr free ↦
                  let yes : may_issue s x.user_id v ≡ true = rw (own, as_before, free) refl in
                  rw
                    (
                      e,
                      unspent,
                      early,
                      free,
                      refresh-live s raw (begin a) x e unspent early,
                      issue_token_pair_lem s x.user_id x.family_id v,
                      yes,
                    )
                    refl
            ]
      ]
    ]
  ]
