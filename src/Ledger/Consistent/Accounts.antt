-- ===== src/Ledger/Consistent/Accounts.antt =====
-- A new account and an UPDATE of one keep the tables consistent and other users' rows.
use mathlib.Core.List.{append-nil}
use tradinghub.Base.{
  same_text_comm, ℕ, suc, ◌<◌, String, Bool, true, false, not, ◌&&◌, some, List, [], ◌∷◌, ◌++◌, ◌≡◌,
  ◌≢◌, refl, sym, ap, ◌∙◌, inl, inr, arith, ◌==◌, Bool-cases, find?, find?-All, find?-holds, any,
  All, All-map, All-append, All-both, Pairwise, Pairwise-append, keep-append,
}
use tradinghub.Sql.{update}
use tradinghub.Sql.Rows.{update_absent, All-update, Keyed-update, keep-update}
use tradinghub.Sql.Group.{keep_none}
use tradinghub.Core.Database.{Work}
use tradinghub.Ledger.Models.{Account}
use tradinghub.Ledger.Crud.Accounts.{names_clash, is_account}
use tradinghub.Ledger.Crud.Transactions.{owns_account}
use tradinghub.Ledger.Services.Accounts.{clashes_with_other}
use tradinghub.Ledger.Consistent.{account_key, account_owner, IsConsistent, Kept, of_others}
use tradinghub.Sql.Search.{any-append, any-false}

names_clash_comm :
    (fold : String → String) (a b : Account) → names_clash fold a b ≡ names_clash fold b a
names_clash_comm fold a b = ground (arith, same_text_comm (fold a.name) (fold b.name))

is_account-key : (i u : ℕ) (a : Account) → is_account i u a ≡ true → a.id ≡ i
is_account-key i u a h = ground arith

is_account-owner : (i u : ℕ) (a : Account) → is_account i u a ≡ true → a.user_id ≡ u
is_account-owner i u a h = ground arith

-- The ids and the owners of accounts are what a foreign key sees.
owns_account-update :
    (new : Account) (xs : List Account) (i u : ℕ)
    → All (λ a. account_key a ≡ account_key new → a.user_id ≡ new.user_id) xs
    → owns_account (update account_key new xs) i u ≡ owns_account xs i u
unfolding update
owns_account-update new [] i u h = refl
owns_account-update new (x ∷ xs) i u h = ground (arith, h.0, owns_account-update new xs i u h.1)

-- With distinct ids, the rows of the found row's id have its owner.
same_owner :
    (q : Account → Bool) (k : ℕ) (old new : Account) (xs : List Account)
    → Pairwise (λ x y. account_key x ≢ account_key y) xs
    → ((x : Account) → q x ≡ true → account_key x ≡ k)
    → find? q xs ≡ some old
    → account_key new ≡ k
    → new.user_id ≡ old.user_id
    → All (λ a. account_key a ≡ account_key new → a.user_id ≡ new.user_id) xs
same_owner q k old new [] d hq found kn own = tt
same_owner q k old new (x ∷ xs) d hq found kn own = elim (Bool-cases (q x)) [
  | inl here ↦
      (λ e. ground arith, All-map (λ y ne e. absurd (ne (hq x here ∙ sym kn ∙ sym e))) xs d.0)
  | inr there ↦
      let later : find? q xs ≡ some old = ground arith in
      let other : account_key x ≢ account_key old =
        find?-All (λ y. account_key x ≢ account_key y) q xs d.0 later in
      (
        λ e. absurd (other (e ∙ kn ∙ sym (hq old (find?-holds q xs later)))),
        same_owner q k old new xs d.1 hq later kn own,
      )
]

module _ (fold : String → String) where
  no_clash :
      (a y : Account)
      → (not (account_key y == account_key a) && names_clash fold a y) ≡ false
      → account_key a ≢ account_key y
      → names_clash fold a y ≡ false
  no_clash a y c ne = ground arith

  -- The updated row clashes with no other.
  names-update :
      (a : Account) (xs : List Account)
      → Pairwise (λ x y. names_clash fold x y ≡ false) xs
      → All (λ x. (not (account_key x == account_key a) && names_clash fold a x) ≡ false) xs
      → Pairwise (λ x y. account_key x ≢ account_key y) xs
      → Pairwise (λ x y. names_clash fold x y ≡ false) (update account_key a xs)
  unfolding update
  names-update a [] p c d = tt
  names-update a (x ∷ xs) p c d = elim (Bool-cases (account_key x == account_key a)) [
    | inl e ↦
        let same : account_key x ≡ account_key a = ground arith in
        let absent : All (λ y. account_key a ≢ account_key y) xs = rw same at d.0 in
        rw (e, update_absent account_key a xs absent)
          (All-map (λ y f. no_clash a y f.0 f.1) xs (All-both _ _ xs c.1 absent), p.1)
    | inr e ↦ rw e (
      All-update account_key _ a xs (names_clash_comm fold x a ∙ ground (arith, c.0)) p.0,
      names-update a xs p.1 c.1 d.1,
    )
  ]

  module _ (u : ℕ) (w : Work) (h : IsConsistent fold w.current w.serials) where
    abbrev pub with_account : Account → Work
    with_account a = record w {
      current = record w.current { accounts = w.accounts ++ a ∷ [] };
      serials = record w.serials { account_serial = suc w.serials.account_serial };
    }

    -- A new account of the user, numbered by the sequence, whose name clashes with no other.
    pub Kept-account :
        (a : Account)
        → a.id ≡ w.serials.account_serial
        → a.user_id ≡ u
        → any (names_clash fold a) w.accounts ≡ false
        → Kept fold u w (with_account a)
    Kept-account a id mine free = record {
      consistent = record {
        accounts_keyed =
            Pairwise-append _ w.accounts (a ∷ []) h.accounts_keyed (tt, tt)
              (All-map (λ x lt. (omega arith, tt)) w.accounts h.accounts_numbered);
        accounts_numbered =
            All-append _ w.accounts (a ∷ [])
              (All-map (λ x lt. omega arith) w.accounts h.accounts_numbered) (omega arith, tt);
        names =
            Pairwise-append _ w.accounts (a ∷ []) h.names (tt, tt)
              (All-map (λ x e. (names_clash_comm fold x a ∙ e, tt)) w.accounts
                (any-false (names_clash fold a) w.accounts free));
        transactions_keyed = h.transactions_keyed;
        transactions_numbered = h.transactions_numbered;
        owned = All-map (λ t e. any-append _ w.accounts (a ∷ []) e) w.transactions h.owned;
        signed = h.signed;
        transfers = h.transfers;
      };
      accounts_grow = omega arith;
      transactions_grow = omega arith;
      users_serial = refl;
      sessions_serial = refl;
      committed = refl;
      others = record {
        users = refl;
        sessions = refl;
        accounts =
            keep-append _ w.accounts (a ∷ [])
            ∙ ap (λ zs. of_others account_owner u w.accounts ++ zs)
                (keep_none (λ x. not (account_owner x == u)) (a ∷ []) (ground arith, tt))
            ∙ append-nil (of_others account_owner u w.accounts);
        transactions = refl;
      };
    }

    abbrev pub with_account_update : Account → Work
    with_account_update a = record w {
      current = record w.current { accounts = update account_key a w.accounts };
    }

    -- A row that the user's search finds is replaced by one of the same id and owner, whose name
    -- clashes with no other.
    pub Kept-account_update :
        (i : ℕ) (old new : Account)
        → find? (is_account i u) w.accounts ≡ some old
        → new.id ≡ old.id
        → new.user_id ≡ old.user_id
        → clashes_with_other fold new w.accounts ≡ false
        → Kept fold u w (with_account_update new)
    Kept-account_update i old new found same_id same_user free =
        let found_it : is_account i u old ≡ true = find?-holds (is_account i u) w.accounts found in
        let mine : old.user_id ≡ u = is_account-owner i u old found_it in
        let key : new.id ≡ i = same_id ∙ is_account-key i u old found_it in
        let below : old.id < w.serials.account_serial =
          find?-All _ (is_account i u) w.accounts h.accounts_numbered found in
        let owners : All (λ a. account_key a ≡ account_key new → a.user_id ≡ new.user_id)
            w.accounts =
          same_owner (is_account i u) i old new w.accounts h.accounts_keyed (is_account-key i u)
            found key same_user in
        record {
          consistent = record {
            accounts_keyed = Keyed-update account_key new w.accounts h.accounts_keyed;
            accounts_numbered =
                All-update account_key _ new w.accounts (omega arith) h.accounts_numbered;
            names =
                names-update new w.accounts h.names (any-false _ w.accounts free) h.accounts_keyed;
            transactions_keyed = h.transactions_keyed;
            transactions_numbered = h.transactions_numbered;
            owned =
                All-map
                  (λ t e. owns_account-update new w.accounts t.account_id t.user_id owners ∙ e)
                  w.transactions h.owned;
            signed = h.signed;
            transfers = h.transfers;
          };
          accounts_grow = omega arith;
          transactions_grow = omega arith;
          users_serial = refl;
          sessions_serial = refl;
          committed = refl;
          others = record {
            users = refl;
            sessions = refl;
            accounts =
                keep-update account_key (λ a. not (a.user_id == u)) (is_account i u) i old new
                  w.accounts h.accounts_keyed (is_account-key i u) found key (ground arith)
                  (ground arith);
            transactions = refl;
          };
        }
