-- ===== src/Ledger/Consistent/Histories.antt =====
-- Histories of requests, as a step relation between stores: what holds after any of them.
use tradinghub.Base.{
  ℕ, String, not, List, ◌≡◌, ◌≢◌, refl, sym, ap, ◌∙◌, arith, ◌==◌, keep, keep-keep, keep-ext,
  All-of,
}
use mathlib.Core.Path.{subst}
use tradinghub.Core.Database.{Store}
use tradinghub.Ledger.Routes.{Supply, Request, handle}
use tradinghub.Ledger.Consistent.{SameOthers, of_others, account_owner, transaction_owner}
use tradinghub.Ledger.Consistent.Requests.{IsSound, IsFresh, handle-Served}

-- Requests of users that satisfy `P`, one after another, each with a fresh uuid.
pub data History (fold : String → String) (P : ℕ → Type 0) (start : Store) : Store → Type 0 where
  empty : History fold P start start
  request :
      {before after : Store}
      → History fold P start before
      → (s : Supply) (user_id : ℕ) (r : Request) → s.fold ≡ fold
      → P user_id
      → IsFresh s.uuid before
      → after ≡ (handle s user_id r before).1
      → History fold P start after

-- After any history of requests, accepted and refused ones, each with a fresh uuid, from a consistent
-- ledger, the ledger is consistent.
pub History-IsSound :
    (fold : String → String) (P : ℕ → Type 0) (a : Store) {b : Store}
    → IsSound fold a
    → History fold P a b
    → IsSound fold b
History-IsSound fold P a h empty = h
History-IsSound fold P a h (request {before = m} hist s u r f p fresh e) =
    let sound = subst (λ φ. IsSound φ m) (sym f) (History-IsSound fold P a h hist) in
    rw e
      (subst (λ φ. IsSound φ (handle s u r m).1) f (handle-Served s u r m sound fresh).consistent)

module _ {A : Type 0} (owner : A → ℕ) where
  abbrev pub of_user : ℕ → List A → List A
  of_user v = keep (λ x. owner x == v)

  of_user-of_others :
      (u v : ℕ) (xs : List A) → u ≢ v → of_user v (of_others owner u xs) ≡ of_user v xs
  of_user-of_others u v xs ne =
      keep-keep (λ x. owner x == v) (λ x. not (owner x == u)) xs
      ∙ keep-ext _ _ xs (All-of (λ x. ground arith) xs)

-- What a user owns in a store is the same in another.
pub record SameRows (v : ℕ) (a b : Store) : Type 0 where
  pub accounts :
      of_user account_owner v b.tables.accounts ≡ of_user account_owner v a.tables.accounts
  pub transactions :
      of_user transaction_owner v b.tables.transactions
      ≡ of_user transaction_owner v a.tables.transactions

-- What is the same for all but one user is the same for every other one.
pub SameOthers-SameRows :
    (u v : ℕ) (a b : Store) → SameOthers u a.tables b.tables → u ≢ v → SameRows v a b
SameOthers-SameRows u v a b step p = record {
  accounts =
      sym (of_user-of_others account_owner u v _ p)
      ∙ ap (of_user account_owner v) step.accounts
      ∙ of_user-of_others account_owner u v _ p;
  transactions =
      sym (of_user-of_others transaction_owner u v _ p)
      ∙ ap (of_user transaction_owner v) step.transactions
      ∙ of_user-of_others transaction_owner u v _ p;
}

-- Whatever other users request, with fresh uuids and from a consistent ledger, a user's accounts and
-- transactions stay as they were.
pub History-SameRows :
    (fold : String → String) (v : ℕ) (a : Store) {b : Store}
    → IsSound fold a
    → History fold (λ u. u ≢ v) a b
    → SameRows v a b
History-SameRows fold v a h empty = record { accounts = refl; transactions = refl }
History-SameRows fold v a h (request {before = m} hist s u r f p fresh e) =
    let sound = History-IsSound fold (λ u. u ≢ v) a h hist in
    let before = History-SameRows fold v a h hist in
    let step = (handle-Served s u r m (subst (λ φ. IsSound φ m) (sym f) sound) fresh).others in
    let now = SameOthers-SameRows u v m (handle s u r m).1 step p in
    rw e (record {
      accounts = now.accounts ∙ before.accounts;
      transactions = now.transactions ∙ before.transactions;
    })
