-- ===== src/Ledger/Routes.antt =====
-- ledger/routes.py: the endpoints, as the signed-in user. A body that its schema refuses raises
-- RequestValidationError before the route runs.
use tradinghub.Base.{ℕ, ℤ, String, Bool, Option, List, map, if◌then◌else◌}
use tradinghub.Core.Errors.{Result, ok, err, validation_error}
use tradinghub.Core.Database.{Store, Action, pure, get_db, get_snapshot_db, ◌>>=◌, ◌>>◌}
use tradinghub.Ledger.Models.{AccountType, Transaction, TransactionKind}
use tradinghub.Ledger.Schemas.{
  AccountCreate, AccountUpdate, TransactionCreate, TransactionUpdate, TransactionFilters,
  TransferCreate, SummaryPeriod, is_row_id, accepts_create, accepts_update, accepts_filters,
  accepts_transfer, accepts_period,
}
use tradinghub.Ledger.Crud.Accounts as AccountCrud
use tradinghub.Ledger.Crud.Accounts.{AccountWithBalance}
use tradinghub.Ledger.Crud.Transactions as TransactionCrud
use tradinghub.Ledger.Crud.Summary as SummaryCrud
use tradinghub.Ledger.Crud.Summary.{UnitTotal, CategoryTotal}
use tradinghub.Ledger.Services.Accounts as AccountService
use tradinghub.Ledger.Services.Transactions as TransactionService
use tradinghub.Ledger.Services.Transfers as TransferService

-- The response bodies of ledger/schemas.
pub record AccountResponse : Type 0 where
  pub id : ℕ
  pub name : String
  pub unit : String
  pub type : AccountType
  pub balance : ℤ
  pub archived_at : Option ℕ

pub record TransactionResponse : Type 0 where
  pub id : ℕ
  pub account_id : ℕ
  pub amount : ℤ
  pub kind : TransactionKind
  pub category : Option String
  pub occurred_at : ℕ
  pub note : Option String
  pub transfer_group_id : Option ℕ

pub record TransactionPage : Type 0 where
  pub items : List TransactionResponse
  pub total : ℕ

pub record SummaryResponse : Type 0 where
  pub totals : List UnitTotal
  pub income : List UnitTotal
  pub expenses : List UnitTotal
  pub by_category : List CategoryTotal

-- `_account_response`
unfoldable pub account_response : AccountWithBalance → AccountResponse
account_response a = record {
  id = a.account.id;
  name = a.account.name;
  unit = a.account.unit;
  type = a.account.type;
  balance = a.balance;
  archived_at = a.account.archived_at;
}

-- TransactionResponse.model_validate
unfoldable pub transaction_response : Transaction → TransactionResponse
transaction_response t = record {
  id = t.id;
  account_id = t.account_id;
  amount = t.amount;
  kind = t.kind;
  category = t.category;
  occurred_at = t.occurred_at;
  note = t.note;
  transfer_group_id = t.transfer_group_id;
}

abbrev pub refuse_unless : Bool → Action (Unit {0})
refuse_unless b w = (if b then ok tt else err validation_error, w)

-- What the database and the standard library supply: the case folding of CITEXT, the order of
-- texts, the clock, and the uuid4 of the request.
pub record Supply : Type 0 where
  pub fold : String → String
  pub collate : String → String → Bool
  pub now : ℕ
  pub uuid : ℕ

pub data Request : Type 0 where
  create_account : AccountCreate → Request
  list_accounts : Request
  get_account : ℕ → Request
  update_account : ℕ → AccountUpdate → Request
  create_transaction : TransactionCreate → Request
  list_transactions : TransactionFilters → Request
  get_transaction : ℕ → Request
  update_transaction : ℕ → TransactionUpdate → Request
  delete_transaction : ℕ → Request
  create_transfer : TransferCreate → Request
  get_summary : SummaryPeriod → Request

pub data Response : Type 0 where
  account : AccountResponse → Response
  accounts : List AccountResponse → Response
  transaction : TransactionResponse → Response
  transactions : List TransactionResponse → Response
  page : TransactionPage → Response
  no_content : Response
  summary : SummaryResponse → Response

unfoldable pub summary_route : Supply → ℕ → SummaryPeriod → Action Response
unfolding SummaryCrud.get_balances_per_unit SummaryCrud.get_income_and_expenses_per_unit
    SummaryCrud.get_expenses_by_category accepts_period
summary_route s user_id period = do
  refuse_unless (accepts_period period)
  totals ← SummaryCrud.get_balances_per_unit s.collate user_id
  both ← SummaryCrud.get_income_and_expenses_per_unit s.collate user_id period
  by_category ← SummaryCrud.get_expenses_by_category s.collate user_id period
  pure (
      summary (record {
        totals = totals;
        income = both.income;
        expenses = both.expenses;
        by_category = by_category;
      }))

-- The body of each route, inside its session.
unfoldable pub route : Supply → ℕ → Request → Action Response
unfolding account_response transaction_response summary_route
route s user_id (create_account payload) = do
  a ← AccountService.create_account s.fold user_id payload
  pure (account (account_response a))
route s user_id list_accounts = do
  rows ← AccountCrud.list_accounts_with_balances s.collate user_id
  pure (accounts (map account_response rows))
route s user_id (get_account account_id) = do
  refuse_unless (is_row_id account_id)
  a ← AccountService.get_account account_id user_id
  pure (account (account_response a))
route s user_id (update_account account_id payload) = do
  refuse_unless (is_row_id account_id)
  a ← AccountService.update_account s.fold s.now account_id user_id payload
  pure (account (account_response a))
route s user_id (create_transaction payload) = do
  refuse_unless (accepts_create payload)
  t ← TransactionService.create_transaction user_id payload
  pure (transaction (transaction_response t))
route s user_id (list_transactions filters) = do
  refuse_unless (accepts_filters filters)
  found ← TransactionCrud.list_transactions user_id filters
  pure (page (record { items = map transaction_response found.0; total = found.1 }))
route s user_id (get_transaction transaction_id) = do
  refuse_unless (is_row_id transaction_id)
  t ← TransactionService.get_transaction transaction_id user_id
  pure (transaction (transaction_response t))
route s user_id (update_transaction transaction_id payload) = do
  refuse_unless (is_row_id transaction_id)
  refuse_unless (accepts_update payload)
  t ← TransactionService.update_transaction transaction_id user_id payload
  pure (transaction (transaction_response t))
route s user_id (delete_transaction transaction_id) = do
  refuse_unless (is_row_id transaction_id)
  TransactionService.delete_transaction transaction_id user_id
  pure no_content
route s user_id (create_transfer payload) = do
  refuse_unless (accepts_transfer payload)
  rows ← TransferService.create_transfer s.uuid user_id payload
  pure (transactions (map transaction_response rows))
route s user_id (get_summary period) = summary_route s user_id period

-- DbSession for every route but the summary, which has SnapshotDbSession.
unfoldable pub handle : Supply → ℕ → Request → Store → Result Response × Store
unfolding route
handle s user_id (get_summary period) = get_snapshot_db (route s user_id (get_summary period))
handle s user_id request = get_db (route s user_id request)
