-- ===== src/Ledger/Consistent/Rows.antt =====
-- Steps of the session that the services are made of, and what each one grants: no step, an id taken
-- from a sequence, rows added to the transactions.
use mathlib.Core.List.{append-nil}
use tradinghub.Base.{
  ℕ, suc, ◌+◌, ◌≤◌, ◌<◌, String, true, List, [], ◌∷◌, ◌++◌, ◌≡◌, ◌≢◌, refl, ap, ◌∙◌, arith, length,
  keep, All, All-map, All-append, Pairwise, Pairwise-append, keep-append,
}
use tradinghub.Sql.Group.{keep_none}
use tradinghub.Core.Database.{Tables, Serials, Work}
use tradinghub.Ledger.Models.{Transaction}
use tradinghub.Ledger.Crud.Transactions.{owns_account, number}
use tradinghub.Ledger.Consistent.{
  transaction_key, transaction_owner, in_group, HasSign, IsTransfer, IsConsistent, SameOthers, Kept,
  of_others,
}

module _ (fold : String → String) (u : ℕ) where
  pub SameOthers-refl : (db : Tables) → SameOthers u db db
  SameOthers-refl db = record {
    users = refl;
    sessions = refl;
    accounts = refl;
    transactions = refl;
  }

  -- An action that only reads.
  pub Kept-refl : (w : Work) → IsConsistent fold w.current w.serials → Kept fold u w w
  Kept-refl w h = record {
    consistent = h;
    accounts_grow = omega arith;
    transactions_grow = omega arith;
    users_serial = refl;
    sessions_serial = refl;
    committed = refl;
    others = SameOthers-refl w.current;
  }

  -- Larger serial numbers are as good.
  pub IsConsistent-grow :
      (db : Tables) (s s' : Serials)
      → s.account_serial ≤ s'.account_serial
      → s.transaction_serial ≤ s'.transaction_serial
      → IsConsistent fold db s
      → IsConsistent fold db s'
  IsConsistent-grow db s s' ga gt h = record {
    accounts_keyed = h.accounts_keyed;
    accounts_numbered = All-map (λ a le. omega arith) db.accounts h.accounts_numbered;
    names = h.names;
    transactions_keyed = h.transactions_keyed;
    transactions_numbered = All-map (λ t le. omega arith) db.transactions h.transactions_numbered;
    owned = h.owned;
    signed = h.signed;
    transfers = h.transfers;
  }

  -- Ids taken from the sequences and not used.
  pub Kept-serials :
      (w : Work) (s' : Serials)
      → w.serials.account_serial ≤ s'.account_serial
      → w.serials.transaction_serial ≤ s'.transaction_serial
      → s'.user_serial ≡ w.serials.user_serial
      → s'.session_serial ≡ w.serials.session_serial
      → IsConsistent fold w.current w.serials
      → Kept fold u w (record w { serials = s' })
  Kept-serials w s' ga gt gu gs h = record {
    consistent = IsConsistent-grow w.current w.serials s' ga gt h;
    accounts_grow = ga;
    transactions_grow = gt;
    users_serial = gu;
    sessions_serial = gs;
    committed = refl;
    others = SameOthers-refl w.current;
  }

-- The ids of new rows lie between the serial before and after.
pub number_bounds :
    (n : ℕ) (ts : List Transaction) → All (λ t. (n ≤ t.id) × (t.id < n + length ts)) (number n ts)
number_bounds n [] = tt
number_bounds n (t ∷ ts) =
    (omega arith, All-map (λ x h. omega arith) (number (suc n) ts) (number_bounds (suc n) ts))

number-Keyed :
    (n : ℕ) (ts : List Transaction)
    → Pairwise (λ x y. transaction_key x ≢ transaction_key y) (number n ts)
number-Keyed n [] = tt
number-Keyed n (t ∷ ts) = (
  All-map (λ x h. omega arith) (number (suc n) ts) (number_bounds (suc n) ts),
  number-Keyed (suc n) ts,
)

module _ (ts : List Transaction) (w : Work) where
  abbrev pub new_rows : List Transaction
  new_rows = number w.serials.transaction_serial ts

  -- The session after the flush of new transactions.
  abbrev pub with_rows : Work
  with_rows = record w {
    current = record w.current { transactions = w.transactions ++ new_rows };
    serials = record w.serials { transaction_serial = w.serials.transaction_serial + length ts };
  }

module _ (fold : String → String) (u : ℕ) (ts : List Transaction) (w : Work) where
  abbrev added : List Transaction
  added = new_rows ts w

  -- New rows of the user in the user's accounts, with the right signs, that leave every group whole.
  pub Kept-rows :
      IsConsistent fold w.current w.serials
      → All (λ t. t.user_id ≡ u) added
      → All (λ t. owns_account w.accounts t.account_id t.user_id ≡ true) added
      → All (λ t. HasSign t.kind t.amount) added
      → ((g : ℕ) → IsTransfer (keep (in_group g) (w.transactions ++ added)))
      → Kept fold u w (with_rows ts w)
  Kept-rows h mine owned signed groups = record {
    consistent = record {
      accounts_keyed = h.accounts_keyed;
      accounts_numbered = h.accounts_numbered;
      names = h.names;
      transactions_keyed =
          Pairwise-append _ w.transactions added h.transactions_keyed
            (number-Keyed w.serials.transaction_serial ts)
            (All-map
              (λ t lt.
                All-map (λ x b. omega arith) added (number_bounds w.serials.transaction_serial ts))
              w.transactions h.transactions_numbered);
      transactions_numbered =
          All-append _ w.transactions added
            (All-map (λ t lt. omega arith) w.transactions h.transactions_numbered)
            (All-map (λ t b. b.1) added (number_bounds w.serials.transaction_serial ts));
      owned = All-append _ w.transactions added h.owned owned;
      signed = All-append _ w.transactions added h.signed signed;
      transfers = groups;
    };
    accounts_grow = omega arith;
    transactions_grow = omega arith;
    users_serial = refl;
    sessions_serial = refl;
    committed = refl;
    others = record {
      users = refl;
      sessions = refl;
      accounts = refl;
      transactions =
          keep-append _ w.transactions added
          ∙ ap (λ zs. of_others transaction_owner u w.transactions ++ zs)
              (keep_none _ added (All-map (λ t e. ground arith) added mine))
          ∙ append-nil (of_others transaction_owner u w.transactions);
    };
  }
