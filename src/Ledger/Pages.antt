-- ===== src/Ledger/Pages.antt =====
-- Paging through list_transactions of ledger/crud/transactions.py, while the rows of the table may stand
-- in another order for each page.
pub mod Wanted
use mathlib.Core.List.{Permᴰ, Mem, mem-cons_self, mem-cons_of_mem}
use mathlib.Core.List.Permᴰ
use native.Mathlib.Nat
use tradinghub.Base.{
  ℕ, zero, suc, ◌*◌, ◌≤◌, ◌<◌, ◌⊎◌, inl, inr, Bool, true, false, not, ◌&&◌, ◌==◌, String, Option,
  none, some, List, [], ◌∷◌, ◌++◌, ◌≡◌, ◌≢◌, refl, sym, ap, ◌∙◌, arith, length, take, keep, All,
  All-map, All-both, All-of, All-keep, Pairwise, Pairwise-keep, Bool-cases, ltb, leb, same_text,
  eq_iff,
}
use tradinghub.Sql.{order_by}
use tradinghub.Sql.Arranged.{order_by-keep-perm, order_by-Permᴰ, All-perm, Pairwise-perm}
use tradinghub.Sql.Order.{IsOrder, Sorted, order_by-Sorted, length-order_by, take_add, take_all}
use tradinghub.Sql.Rows.{Keyed}
use tradinghub.Sql.Search.{keep-holds-test}
use tradinghub.Core.Errors.{Result, ok, err}
use tradinghub.Core.Database.{Work}
use tradinghub.Ledger.Models.{Transaction, TransactionKind, income, expense, transfer, same_kind}
use tradinghub.Ledger.Schemas.{TransactionFilters}
use tradinghub.Ledger.Crud.Transactions.{newer, conditions, when, has_text, list_transactions}
use tradinghub.Ledger.Consistent.{transaction_key}
use tradinghub.Ledger.Pages.Wanted.{
  IsWanted, IsNewer, IsListing, conditions-IsWanted, IsWanted-conditions,
}
use tradinghub.Sql.Members.{Pairwise-map, Pairwise-both, All-mem, keep-mem}

newer-IsOrder : IsOrder newer
newer-IsOrder = record { total = λ x y h. ground arith; transitive = λ x y z h k. ground arith }

abbrev pub items : Result (List Transaction × ℕ) → List Transaction
items (ok (rows, total)) = rows
items (err e) = []

abbrev pub count : Result (List Transaction × ℕ) → ℕ
count (ok (rows, total)) = total
count (err e) = 0

-- Rows with different ids have one order.
decided : (x y : Transaction) → x.id ≢ y.id → newer x y ≡ not (newer y x)
decided x y ne = ground (arith, ne)

newer-IsNewer : (x y : Transaction) → x.id ≢ y.id → newer x y ≡ true → IsNewer x y
newer-IsNewer x y ne h = elim (Bool-cases (ltb y.occurred_at x.occurred_at)) [
  | inl later ↦ inl (ground arith)
  | inr same ↦ inr (ground arith, ground (arith, ne))
]

-- The pages are read one after another, and each finds the rows where they stand by then.
module _ (user_id : ℕ) (filters : TransactionFilters) (stored : List Transaction) (at : ℕ → Work)
    (keyed : Keyed transaction_key stored)
    (moved : (j : ℕ) → Permᴰ stored (at j).transactions) where
  abbrev pub page : ℕ → ℕ → Result (List Transaction × ℕ)
  page j offset = (list_transactions user_id (record filters { offset = offset }) (at j)).0

  -- The items of the first pages, one after another.
  abbrev pub pages : ℕ → List Transaction
  pages zero = []
  pages (suc k) = pages k ++ items (page k (k * filters.limit))

  listing : List Transaction
  listing = order_by newer (keep (conditions user_id filters) stored)

  listed_at :
      (j : ℕ) → order_by newer (keep (conditions user_id filters) (at j).transactions) ≡ listing
  unfolding listing
  listed_at j = sym (
      order_by-keep-perm newer newer-IsOrder (conditions user_id filters) (moved j)
        (Pairwise-map decided stored keyed))

  pages-take : (k : ℕ) → pages k ≡ take (k * filters.limit) listing
  unfolding list_transactions
  pages-take zero = rw Nat.zero-mul refl
  pages-take (suc k) =
      rw (pages-take k, listed_at k, Nat.suc-mul k filters.limit)
        (take_add (k * filters.limit) filters.limit listing)

  page-count : (j offset : ℕ) → count (page j offset) ≡ length listing
  unfolding list_transactions
  page-count j offset =
      sym (length-order_by newer (keep (conditions user_id filters) (at j).transactions))
      ∙ ap length (listed_at j)

  listing-IsListing : IsListing user_id filters stored listing
  unfolding listing
  listing-IsListing =
      let matching = keep (conditions user_id filters) stored in
      let arranged = order_by-Permᴰ newer matching in
      let back = Permᴰ.symm arranged in
      record {
        sorted =
            Pairwise-both newer-IsNewer listing
              (Pairwise-perm (λ x y. x.id ≢ y.id) (λ x y ne e. ne (sym e)) back
                (Pairwise-keep _ (conditions user_id filters) stored keyed))
              (order_by-Sorted newer newer-IsOrder matching);
        wanted = All-perm (IsWanted user_id filters) back (
            All-map (λ t e. conditions-IsWanted user_id filters t e) matching
              (keep-holds-test (conditions user_id filters) stored));
        sound =
            All-perm (λ t. Mem t stored) back
              (All-keep (λ t. Mem t stored) (conditions user_id filters) stored (All-mem stored));
        complete =
            All-map (λ t m h. Permᴰ.mem back (m (IsWanted-conditions user_id filters t h))) stored
              (keep-mem (conditions user_id filters) stored);
      }

  -- Where ids are distinct, and however the rows are moved between the pages, the pages of one length,
  -- read until the total that some page names is reached, are the user's stored transactions that meet
  -- the filters, all of them and each once: newest first, and of one instant the one with the larger id
  -- first. Every page names their number.
  pub list_transactions-IsListing :
      (k j offset : ℕ)
      → count (page j offset) ≤ k * filters.limit
      → IsListing user_id filters stored (pages k)
        × ((i start : ℕ) → count (page i start) ≡ length (pages k))
  list_transactions-IsListing k j offset h =
      let enough : length listing ≤ k * filters.limit = rw (page-count j offset) at h in
      let whole : pages k ≡ listing = pages-take k ∙ take_all _ _ enough in
      rw whole (listing-IsListing, page-count)
