-- ===== src/Auth/Families/Frame.antt =====
-- The auth endpoints leave the ledger's tables and sequences as they are.
use tradinghub.Base.{
  ℕ, String, Bool, Option, ◌≡◌, refl, inl, inr, Bool-cases, Option-cases, ltb, is_some,
}
use tradinghub.Core.Errors.{Result, ok, err}
use tradinghub.Core.Config.{Settings}
use tradinghub.Core.Database.{Store, Work, begin, get_db, finish, commit, rollback}
use tradinghub.Auth.Security.RateLimit.{Redis}
use tradinghub.Auth.Security.Passwords.{verify_password}
use tradinghub.Auth.Services.{
  AuthSupply, issue_token_pair, refresh_session, logout_user, login_counted, register_counted,
}
use tradinghub.Auth.Routes.{Request, handle}
use tradinghub.Auth.Families.{is_spent}
use tradinghub.Auth.Families.Actions.{
  issue_token_pair_lem, may_issue, presented, refresh-unknown, refresh-spent, refresh-expired,
  refresh-live, spent_now, logout-unknown, logout-known,
}
use tradinghub.Auth.Families.SignIn.{
  account_of, login-refused, login-accepted, register-taken, register-free, user_row, enrolled,
}
use tradinghub.Auth.Families.Keeping.{action, route-keeps}

module _ (a : Store) where
  -- The ledger of a store, in what is committed and in what the transaction sees.
  abbrev pub HasLedger : Work → Type 0
  HasLedger w =
      (w.current.accounts ≡ a.tables.accounts)
      × (w.current.transactions ≡ a.tables.transactions)
      × (w.committed.accounts ≡ a.tables.accounts)
      × (w.committed.transactions ≡ a.tables.transactions)
      × (w.serials.account_serial ≡ a.serials.account_serial)
      × (w.serials.transaction_serial ≡ a.serials.transaction_serial)

  module _ (s : AuthSupply) where
    HasLedger-issue_token_pair :
        (user_id family_id : ℕ) (w : Work)
        → HasLedger w
        → HasLedger (issue_token_pair s user_id family_id w).1
    HasLedger-issue_token_pair user_id family_id w h =
        rw (issue_token_pair_lem s user_id family_id w) (elim (Bool-cases (may_issue s user_id w)) [
          | inl allowed ↦ rw allowed h
          | inr refused ↦ rw refused h
        ])

    module _ (w : Work) (h : HasLedger w) where
      HasLedger-refresh_session : (raw : String) → HasLedger (refresh_session s raw w).1
      HasLedger-refresh_session raw = elim (Option-cases (presented s raw w)) [
        | inl e ↦ rw (refresh-unknown s raw w e) h
        | inr (x, e) ↦ elim (Bool-cases (is_spent x)) [
          | inl spent ↦ rw (refresh-spent s raw w x e spent) (h.0, h.1, h.0, h.1, h.4, h.5)
          | inr unspent ↦ elim (Bool-cases (ltb x.expires_at s.now)) [
            | inl late ↦ rw (refresh-expired s raw w x e unspent late) h
            | inr early ↦
                rw (refresh-live s raw w x e unspent early)
                  (HasLedger-issue_token_pair x.user_id x.family_id (spent_now s raw w x) h)
          ]
        ]
      ]

      HasLedger-logout_user : (raw : String) → HasLedger (logout_user s raw w).1
      HasLedger-logout_user raw = elim (Option-cases (presented s raw w)) [
        | inl e ↦ rw (logout-unknown s raw w e) h
        | inr (x, e) ↦ rw (logout-known s raw w x e) h
      ]

      HasLedger-login_counted : (email raw : String) → HasLedger (login_counted s email raw w).1
      HasLedger-login_counted email raw = elim (Option-cases (account_of s w email raw)) [
        | inl unknown ↦ rw (login-refused s w email raw (rw unknown refl)) h
        | inr (u, known) ↦ elim (Bool-cases (verify_password s.hasher raw u.password_hash)) [
          | inl right ↦
              rw (login-accepted s w email raw u known right)
                (HasLedger-issue_token_pair u.id s.uuid w h)
          | inr wrong ↦ rw (login-refused s w email raw (rw (known, wrong) refl)) h
        ]
      ]

      HasLedger-register_counted :
          (email raw : String) → HasLedger (register_counted s email raw w).1
      HasLedger-register_counted email raw =
          elim (Bool-cases (is_some (account_of s w email raw))) [
            | inl taken ↦ rw (register-taken s w email raw taken) h
            | inr free ↦ rw (register-free s w email raw free) (
                HasLedger-issue_token_pair (user_row s w email raw).id s.uuid
                  (enrolled s w email raw) h)
          ]

-- Two stores with one ledger.
pub record SameLedger (a b : Store) : Type 0 where
  pub accounts : b.tables.accounts ≡ a.tables.accounts
  pub transactions : b.tables.transactions ≡ a.tables.transactions
  pub account_serial : b.serials.account_serial ≡ a.serials.account_serial
  pub transaction_serial : b.serials.transaction_serial ≡ a.serials.transaction_serial

finish-SameLedger {ℓ} :
    {A : Type ℓ} (a : Store) (r : Result A) (w : Work) → HasLedger a w → SameLedger a (finish r w).1
unfolding finish commit rollback
finish-SameLedger a (ok x) w h = record {
  accounts = h.0;
  transactions = h.1;
  account_serial = h.4;
  transaction_serial = h.5;
}
finish-SameLedger a (err e) w h = record {
  accounts = h.2;
  transactions = h.3;
  account_serial = h.4;
  transaction_serial = h.5;
}

module _ (settings : Settings) (is_email : String → Bool) (s : AuthSupply) (redis : Redis)
    (seconds : ℕ) (client : Option String) (c : redis.State) where
  -- No request to the auth endpoints touches the accounts or the transactions.
  pub handle-SameLedger :
      (r : Request) (a : Store)
      → SameLedger a (handle settings is_email s redis seconds client r c a).1.1
  unfolding handle get_db
  handle-SameLedger r a =
      let start : HasLedger a (begin a) = (refl, refl, refl, refl, refl, refl) in
      let after = action settings is_email s redis seconds client c r (begin a) in
      finish-SameLedger a after.0 after.1 (
        route-keeps settings is_email s redis seconds client c (HasLedger a) (begin a) start
          (HasLedger-register_counted a s (begin a) start)
          (HasLedger-login_counted a s (begin a) start)
          (HasLedger-refresh_session a s (begin a) start)
          (HasLedger-logout_user a s (begin a) start) r)
