-- ===== src/Auth/Families/Actions.antt =====
-- Every auth service keeps what is committed and what its transaction sees consistent.
use tradinghub.Auth.Security.Tokens.{encode_access_token, refresh_token_lifetime}
use tradinghub.Auth.Services.{TokenPair, logout_user}
use tradinghub.Base.{
  ◌+◌, ℕ, String, Bool, true, false, ltb, Option, none, some, ◌≡◌, refl, arith, inl, inr,
  Bool-cases, Option-cases, find?, All, if◌then◌else◌,
}
use tradinghub.Core.Errors.{Result, ok, err, app_error, invalid_session, integrity_error}
use tradinghub.Core.Database.{Work}
use tradinghub.Auth.Models.{Session}
use tradinghub.Auth.Crud.Sessions.{has_hash, create_session, session_allowed}
use tradinghub.Auth.Services.{TokenPair, AuthSupply, issue_token_pair, refresh_session}
use tradinghub.Auth.Families.{conflict, is_spent, IsGood}
use tradinghub.Auth.Families.Steps.{
  with_spent, without_family, with_session, next_session, IsAuthConsistent-grow,
  IsAuthConsistent-session, IsAuthConsistent-revoke, IsAuthConsistent-spend, successor_apart,
}

module _ (s : AuthSupply) where
  -- The row that a new token pair stores.
  abbrev pub session_row : ℕ → ℕ → Work → Session
  session_row user_id family_id w = record {
    id = w.serials.session_serial;
    user_id = user_id;
    family_id = family_id;
    hashed_refresh_token = s.hash_refresh_token s.refresh_token;
    used_at = none;
    expires_at = s.now + refresh_token_lifetime;
  }

  abbrev pub new_pair : ℕ → TokenPair
  new_pair user_id = record {
    access_token = encode_access_token s.jwt s.now user_id;
    refresh_token = s.refresh_token;
  }

  abbrev pub may_issue : ℕ → Work → Bool
  may_issue user_id w = session_allowed w.current user_id (s.hash_refresh_token s.refresh_token)

  abbrev pub issued : ℕ → ℕ → Work → Work
  issued user_id family_id w = record w {
    current = with_session w.current (session_row user_id family_id w);
    serials = next_session w.serials;
  }

  -- Minting a pair stores its row, unless a constraint refuses it.
  pub issue_token_pair_lem :
      (user_id family_id : ℕ) (w : Work)
      → issue_token_pair s user_id family_id w ≡ (
          if may_issue user_id w
          then (ok (new_pair user_id), issued user_id family_id w)
          else (err integrity_error, record w { serials = next_session w.serials }))
  unfolding issue_token_pair create_session
  issue_token_pair_lem user_id family_id w = elim (Bool-cases (may_issue user_id w)) [
    | inl allowed ↦ rw allowed refl
    | inr refused ↦ rw refused refl
  ]

  abbrev IsGoodAfter {ℓ} : {A : Type ℓ} → Result A × Work → Type 0
  IsGoodAfter (r, w) = IsGood s.fold w

  -- A new pair leaves the session good, when its row conflicts with none.
  pub IsGood-issue_token_pair :
      (user_id family_id : ℕ) (w : Work)
      → IsGood s.fold w
      → All (λ y. conflict y (session_row user_id family_id w) ≡ false) w.sessions
      → IsGood s.fold (issue_token_pair s user_id family_id w).1
  IsGood-issue_token_pair user_id family_id w h apart =
      rw (issue_token_pair_lem user_id family_id w) (elim (Bool-cases (may_issue user_id w)) [
        | inl allowed ↦ rw allowed (record {
          current =
              IsAuthConsistent-session s.fold w.current w.serials h.current
                (session_row user_id family_id w) refl (ground arith) (ground arith) apart;
          committed =
              IsAuthConsistent-grow s.fold w.committed w.serials (next_session w.serials)
                (omega arith) (omega arith) h.committed;
        })
        | inr refused ↦ rw refused (record {
          current =
              IsAuthConsistent-grow s.fold w.current w.serials (next_session w.serials)
                (omega arith) (omega arith) h.current;
          committed =
              IsAuthConsistent-grow s.fold w.committed w.serials (next_session w.serials)
                (omega arith) (omega arith) h.committed;
        })
      ])

  module _ (raw : String) (w : Work) where
    abbrev pub presented : Option Session
    presented = find? (has_hash (s.hash_refresh_token raw)) w.sessions

    pub refresh-unknown :
        presented ≡ none → refresh_session s raw w ≡ (err (app_error invalid_session), w)
    unfolding refresh_session
    refresh-unknown e = rw e refl

    abbrev pub revoked : ℕ → Work
    revoked f = record {
      committed = without_family w.current f;
      current = without_family w.current f;
      serials = w.serials;
    }

    -- A spent token takes its family with it, and the revocation is committed.
    pub refresh-spent :
        (x : Session)
        → presented ≡ some x
        → is_spent x ≡ true
        → refresh_session s raw w ≡ (err (app_error invalid_session), revoked x.family_id)
    unfolding refresh_session
    refresh-spent x e spent = rw (e, spent) refl

    pub refresh-expired :
        (x : Session)
        → presented ≡ some x
        → is_spent x ≡ false
        → ltb x.expires_at s.now ≡ true
        → refresh_session s raw w ≡ (err (app_error invalid_session), w)
    unfolding refresh_session
    refresh-expired x e unspent late = rw (e, unspent, late) refl

    abbrev pub spent_now : Session → Work
    spent_now x = record w { current = with_spent w.current s.now x }

    -- A live token is spent, and its family goes on.
    pub refresh-live :
        (x : Session)
        → presented ≡ some x
        → is_spent x ≡ false
        → ltb x.expires_at s.now ≡ false
        → refresh_session s raw w ≡ issue_token_pair s x.user_id x.family_id (spent_now x)
    unfolding refresh_session
    refresh-live x e unspent early = rw (e, unspent, early) refl

    pub IsGood-refresh_session : IsGood s.fold w → IsGood s.fold (refresh_session s raw w).1
    IsGood-refresh_session h = elim (Option-cases presented) [
      | inl e ↦ rw (refresh-unknown e) h
      | inr (x, e) ↦ elim (Bool-cases (is_spent x)) [
        | inl spent ↦
            let gone = IsAuthConsistent-revoke s.fold w.current w.serials h.current x.family_id in
            rw (refresh-spent x e spent) (record { current = gone; committed = gone })
        | inr unspent ↦ elim (Bool-cases (ltb x.expires_at s.now)) [
          | inl late ↦ rw (refresh-expired x e unspent late) h
          | inr early ↦ rw (refresh-live x e unspent early) (
              IsGood-issue_token_pair x.user_id x.family_id (spent_now x)
                (record {
                  current = IsAuthConsistent-spend s.fold w.current w.serials h.current s.now _ x e;
                  committed = h.committed;
                })
                (successor_apart s.fold w.current w.serials h.current s.now _ x
                  (session_row x.user_id x.family_id (spent_now x)) e unspent refl refl))
        ]
      ]
    ]

    pub logout-unknown : presented ≡ none → logout_user s raw w ≡ (ok tt, w)
    unfolding logout_user
    logout-unknown e = rw e refl

    abbrev pub left : ℕ → Work
    left f = record w { current = without_family w.current f }

    pub logout-known :
        (x : Session) → presented ≡ some x → logout_user s raw w ≡ (ok tt, left x.family_id)
    unfolding logout_user
    logout-known x e = rw e refl

    pub IsGood-logout_user : IsGood s.fold w → IsGood s.fold (logout_user s raw w).1
    IsGood-logout_user h = elim (Option-cases presented) [
      | inl e ↦ rw (logout-unknown e) h
      | inr (x, e) ↦ rw (logout-known x e) (record {
        current = IsAuthConsistent-revoke s.fold w.current w.serials h.current x.family_id;
        committed = h.committed;
      })
    ]
