-- ===== src/Ledger/Schemas.antt =====
-- ledger/schemas: the request bodies, and the validators that the source writes out itself.
use tradinghub.Base.{
  ℕ, ℤ, pos, String, Bool, true, false, not, ◌&&◌, Option, none, some, ltb, leb, leb_ℤ, ◌*◌,
  is_some,
}
use tradinghub.Ledger.Models.{AccountType, TransactionKind}

-- core/schemas.py RowId: what an INTEGER primary key can hold.
unfoldable pub is_row_id : ℕ → Bool
is_row_id n = leb 1 n && leb n 2147483647

-- Amount, as a count of 10⁻¹⁸: positive, 36 digits at most with 18 of them behind the point.
unfoldable pub is_amount : ℤ → Bool
is_amount a = leb_ℤ (pos 1) a && leb_ℤ a (pos 999999999999999999999999999999999999)

-- core/schemas.py UtcDatetime: from 1900, where the count of microseconds starts, to before 2100.
unfoldable pub is_utc_datetime : ℕ → Bool
is_utc_datetime at = ltb at (73049 * 86400000000)

-- NonTransferKind
abbrev pub is_non_transfer : TransactionKind → Bool
is_non_transfer TransactionKind.income = true
is_non_transfer TransactionKind.expense = true
is_non_transfer TransactionKind.transfer = false

-- A field of a partial update: omitted, null, or a value.
pub data Sent (A : Type 0) : Type 0 where
  unset null : Sent A
  value : A → Sent A

-- `is not None`
abbrev pub given : {A : Type 0} → Sent A → Bool
given (value a) = true
given _ = false

abbrev pub is_null : {A : Type 0} → Sent A → Bool
is_null null = true
is_null _ = false

pub record AccountCreate : Type 0 where
  pub name : String
  pub unit : String
  pub type : AccountType

-- A null counts as not sent, so `none` stands for both.
pub record AccountUpdate : Type 0 where
  pub name : Option String
  pub unit : Option String
  pub type : Option AccountType
  pub archived : Option Bool

pub record TransactionCreate : Type 0 where
  pub account_id : ℕ
  pub amount : ℤ
  pub kind : TransactionKind
  pub category : Option String
  pub occurred_at : ℕ
  pub note : Option String

pub record TransactionUpdate : Type 0 where
  pub amount : Sent ℤ
  pub kind : Sent TransactionKind
  pub category : Sent String
  pub occurred_at : Sent ℕ
  pub note : Sent String

-- TransactionUpdate._required_fields_are_not_null
unfoldable pub required_fields_are_not_null : TransactionUpdate → Bool
required_fields_are_not_null u =
    not (is_null u.amount) && not (is_null u.kind) && not (is_null u.occurred_at)

pub record TransactionFilters : Type 0 where
  pub account_id : Option ℕ
  pub kind : Option TransactionKind
  pub category : Option String
  pub occurred_from : Option ℕ
  pub occurred_to : Option ℕ
  pub limit : ℕ
  pub offset : ℕ

pub record TransferCreate : Type 0 where
  pub from_account_id : ℕ
  pub to_account_id : ℕ
  pub amount_sent : ℤ
  pub amount_received : ℤ
  pub fee : Option ℤ
  pub fee_account_id : Option ℕ
  pub fee_category : Option String
  pub occurred_at : ℕ
  pub note : Option String

-- TransferCreate._fee_fields_agree, after which `fee is None` decides both tests.
abbrev agree : Bool → Bool → Bool → Bool
agree true true category = true
agree false false category = not category
agree _ _ category = false

unfoldable pub fee_fields_agree : TransferCreate → Bool
fee_fields_agree t = agree (is_some t.fee) (is_some t.fee_account_id) (is_some t.fee_category)

pub record SummaryPeriod : Type 0 where
  pub occurred_from : ℕ
  pub occurred_to : ℕ

-- SummaryPeriod._start_is_before_end
unfoldable pub start_is_before_end : SummaryPeriod → Bool
start_is_before_end p = ltb p.occurred_from p.occurred_to

-- What pydantic checks of the numbers, the kind and the instants in a body, with the validators above.
abbrev pub for_all {ℓ} : {A : Type ℓ} → Option A → (A → Bool) → Bool
for_all none test = true
for_all (some a) test = test a

abbrev pub for_value : {A : Type 0} → Sent A → (A → Bool) → Bool
for_value (value a) test = test a
for_value _ test = true

unfoldable pub accepts_create : TransactionCreate → Bool
unfolding is_row_id is_amount is_utc_datetime
accepts_create d =
    is_row_id d.account_id
    && is_amount d.amount
    && is_non_transfer d.kind
    && is_utc_datetime d.occurred_at

unfoldable pub accepts_update : TransactionUpdate → Bool
unfolding is_amount is_utc_datetime required_fields_are_not_null
accepts_update u =
    for_value u.amount is_amount
    && for_value u.kind is_non_transfer
    && for_value u.occurred_at is_utc_datetime
    && required_fields_are_not_null u

unfoldable pub accepts_filters : TransactionFilters → Bool
unfolding is_row_id is_utc_datetime
accepts_filters f =
    for_all f.account_id is_row_id
    && for_all f.occurred_from is_utc_datetime
    && for_all f.occurred_to is_utc_datetime
    && leb 1 f.limit
    && leb f.limit 200
    && leb f.offset 9223372036854775807

unfoldable pub accepts_transfer : TransferCreate → Bool
unfolding is_row_id is_amount is_utc_datetime fee_fields_agree
accepts_transfer t =
    is_row_id t.from_account_id
    && is_row_id t.to_account_id
    && is_amount t.amount_sent
    && is_amount t.amount_received
    && for_all t.fee is_amount
    && for_all t.fee_account_id is_row_id
    && is_utc_datetime t.occurred_at
    && fee_fields_agree t

unfoldable pub accepts_period : SummaryPeriod → Bool
unfolding is_utc_datetime start_is_before_end
accepts_period p =
    is_utc_datetime p.occurred_from && is_utc_datetime p.occurred_to && start_is_before_end p
