-- ===== src/Ledger/Pages/Wanted.antt =====
-- What a listing of transactions is asked for, and that the WHERE of ledger/crud/transactions.py says it.
use mathlib.Core.List.{Mem}
use tradinghub.Base.{
  ℕ, ◌≤◌, ◌<◌, ◌⊎◌, Bool, true, ◌==◌, String, Option, none, some, List, ◌≡◌, refl, ap, arith, All,
  Pairwise, ltb, leb, eq_iff,
}
use tradinghub.Ledger.Models.{Transaction, TransactionKind, same_kind}
use tradinghub.Ledger.Schemas.{TransactionFilters}
use tradinghub.Ledger.Crud.Transactions.{conditions, when, has_text}

-- A filter that is not given asks for nothing.
abbrev pub Asks {ℓ} : {A : Type ℓ} → Option A → (A → Type 0) → Type 0
Asks none P = Unit
Asks (some a) P = P a

-- What a listing is asked for: a user's rows, of one account, kind and category, from the one instant on
-- and before the other.
pub record IsWanted (user_id : ℕ) (f : TransactionFilters) (t : Transaction) : Type 0 where
  pub owner : t.user_id ≡ user_id
  pub account : Asks f.account_id (λ i. t.account_id ≡ i)
  pub kind : Asks f.kind (λ k. t.kind ≡ k)
  pub category : Asks f.category (λ c. t.category ≡ some c)
  pub since : Asks f.occurred_from (λ start. start ≤ t.occurred_at)
  pub until : Asks f.occurred_to (λ end. t.occurred_at < end)

-- The later one first, and of one instant the one that was recorded later.
abbrev pub IsNewer : Transaction → Transaction → Type 0
IsNewer x y = (y.occurred_at < x.occurred_at) ⊎ ((x.occurred_at ≡ y.occurred_at) × (y.id < x.id))

-- All the stored rows that are wanted, and nothing else, strictly in their order: so each of them once.
pub record IsListing (user_id : ℕ) (f : TransactionFilters) (stored listed : List Transaction)
    : Type 0 where
  pub sorted : Pairwise IsNewer listed
  pub wanted : All (IsWanted user_id f) listed
  pub sound : All (λ t. Mem t stored) listed
  pub complete : All (λ t. IsWanted user_id f t → Mem t listed) stored

when-Asks {ℓ} :
    {A : Type ℓ} (o : Option A) (test : A → Bool) (P : A → Type 0)
    → ((a : A) → test a ≡ true → P a)
    → when o test ≡ true
    → Asks o P
when-Asks none test P f h = tt
when-Asks (some a) test P f h = f a h

Asks-when {ℓ} :
    {A : Type ℓ} (o : Option A) (test : A → Bool) (P : A → Type 0)
    → ((a : A) → P a → test a ≡ true)
    → Asks o P
    → when o test ≡ true
Asks-when none test P f h = refl
Asks-when (some a) test P f h = f a h

same_kind-eq : (k k' : TransactionKind) → same_kind k k' ≡ true → k ≡ k'
same_kind-eq k k' h = ground (arith, h)

same_kind_refl : (k : TransactionKind) → same_kind k k ≡ true
same_kind_refl k = ground arith

has_text-eq : (o : Option String) (c : String) → has_text o c ≡ true → o ≡ some c
has_text-eq none c h = cc
has_text-eq (some s) c h = ap some ((eq_iff s c).0 h)

pub conditions-IsWanted :
    (user_id : ℕ) (f : TransactionFilters) (t : Transaction)
    → conditions user_id f t ≡ true
    → IsWanted user_id f t
unfolding conditions
conditions-IsWanted user_id f t h = record {
  owner = ground arith;
  account =
      when-Asks f.account_id (λ i. t.account_id == i) (λ i. t.account_id ≡ i) (λ i e. ground arith)
        (ground arith);
  kind =
      when-Asks f.kind (λ k. same_kind t.kind k) (λ k. t.kind ≡ k) (λ k e. same_kind-eq t.kind k e)
        (ground arith);
  category =
      when-Asks f.category (λ c. has_text t.category c) (λ c. t.category ≡ some c)
        (λ c e. has_text-eq t.category c e) (ground arith);
  since =
      when-Asks f.occurred_from (λ i. leb i t.occurred_at) (λ i. i ≤ t.occurred_at)
        (λ i e. ground arith) (ground arith);
  until =
      when-Asks f.occurred_to (λ i. ltb t.occurred_at i) (λ i. t.occurred_at < i)
        (λ i e. ground arith) (ground arith);
}

pub IsWanted-conditions :
    (user_id : ℕ) (f : TransactionFilters) (t : Transaction)
    → IsWanted user_id f t
    → conditions user_id f t ≡ true
unfolding conditions
IsWanted-conditions user_id f t h =
    let own : (t.user_id == user_id) ≡ true = ground (arith, h.owner) in
    let account =
      Asks-when f.account_id (λ i. t.account_id == i) (λ i. t.account_id ≡ i) (λ i e. ground arith)
        h.account in
    let kind =
      Asks-when f.kind (λ k. same_kind t.kind k) (λ k. t.kind ≡ k) (λ k e. rw e (same_kind_refl k))
        h.kind in
    let category =
      Asks-when f.category (λ c. has_text t.category c) (λ c. t.category ≡ some c)
        (λ c e. rw e ((eq_iff c c).1 refl)) h.category in
    let since =
      Asks-when f.occurred_from (λ i. leb i t.occurred_at) (λ i. i ≤ t.occurred_at)
        (λ i e. ground arith) h.since in
    let until =
      Asks-when f.occurred_to (λ i. ltb t.occurred_at i) (λ i. t.occurred_at < i)
        (λ i e. ground arith) h.until in
    rw (own, account, kind, category, since, until) refl
