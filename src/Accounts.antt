-- ===== src/Accounts.antt =====
-- How postings find their accounts: the lookups of src/modules/accounts/accounts.service.ts, with the
-- system accounts of accounts.constants.ts and `assertMoneyAccount` of
-- src/common/utils/money-account.util.ts. The column sub_type is a map from the ids.
use fin_matrix_backend.Prelude.{
  ℕ, Bool, true, false, not, ◌&&◌, Option, none, some, List, [], ◌∷◌, ◌++◌, map, find, ◌==◌,
  if◌then◌else◌, Result, ok, err, ◌>>=◌, ◌>>◌, throw_if, or_throw,
}
use fin_matrix_backend.Prelude.Int.{pos}
use fin_matrix_backend.Store.{
  AccountType, asset, liability, equity, expense, SubType, cash, bank, other_sub_type, Account, Db,
}

pub data AccountError : Type 0 where
  account_not_found account_inactive invalid_payment_account : AccountError

abbrev pub acct_cash : ℕ
acct_cash = 1000

abbrev pub acct_bank : ℕ
acct_bank = 1010

abbrev pub acct_ar : ℕ
acct_ar = 1100

abbrev pub acct_customer_advances : ℕ
acct_customer_advances = 2400

abbrev pub numbered : ℕ → ℕ → Account → Bool
numbered company_id number a = (a.company_id == company_id) && (a.account_number == number)

-- `getByNumberOrFail`.
unfoldable pub get_by_number : Db → ℕ → ℕ → Result AccountError Account
get_by_number db company_id number = do
  account ← or_throw (find (numbered company_id number) db.accounts) account_not_found
  throw_if (not account.is_active) account_inactive
  ok account

-- SYSTEM_ACCOUNT_DEFS.
abbrev pub is_liability_number : ℕ → Bool
is_liability_number n = if n == 2050 then true else if n == 2400 then true else n == 2310

abbrev pub is_asset_number : ℕ → Bool
is_asset_number n = if n == 1300 then true else n == 1250

abbrev pub is_expense_number : ℕ → Bool
is_expense_number n =
    if n == 6400
    then true
    else if n == 5400
    then true
    else if n == 5410
    then true
    else if n == 5420
    then true
    else n == 5430

abbrev pub system_account_type : ℕ → Option AccountType
system_account_type n =
    if n == 3900
    then some equity
    else if is_liability_number n
    then some liability
    else if is_asset_number n
    then some asset
    else if is_expense_number n
    then some expense
    else none

abbrev pub save_account : Account → List Account → List Account
save_account a = map (λ (x : Account). if x.id == a.id then a else x)

abbrev pub activate : Account → Account
activate a = record a { is_active = true }

abbrev pub create_system_account :
    ℕ → ℕ → ℕ → Option AccountType → Db → Result AccountError (Account × Db)
create_system_account new_id company_id number none db = err account_not_found
create_system_account new_id company_id number (some kind) db =
    let created : Account = record {
      id = new_id;
      company_id = company_id;
      account_number = number;
      kind = kind;
      balance = pos 0;
      is_active = true;
    } in
    ok (created, record db { accounts = db.accounts ++ created ∷ [] })

abbrev pub use_or_create : ℕ → ℕ → ℕ → Option Account → Db → Result AccountError (Account × Db)
use_or_create new_id company_id number (some existing) db =
    if not existing.is_active
    then ok
        (activate existing, record db { accounts = save_account (activate existing) db.accounts })
    else ok (existing, db)
use_or_create new_id company_id number none db =
    create_system_account new_id company_id number (system_account_type number) db

-- The account is created or made active when it has to be.
unfoldable pub get_or_create_system_account : ℕ → Db → ℕ → ℕ → Result AccountError (Account × Db)
get_or_create_system_account new_id db company_id number =
    use_or_create new_id company_id number (find (numbered company_id number) db.accounts) db

abbrev pub is_asset : AccountType → Bool
is_asset asset = true
is_asset _ = false

abbrev pub is_money_sub_type : SubType → Bool
is_money_sub_type cash = true
is_money_sub_type bank = true
is_money_sub_type other_sub_type = false

abbrev pub assert_money_account : SubType → Account → Result AccountError (Unit {0})
assert_money_account sub_type a = do
  throw_if (not (is_asset a.kind && is_money_sub_type sub_type)) invalid_payment_account
  throw_if (not a.is_active) invalid_payment_account

unfoldable pub resolve_money_account :
    (ℕ → SubType) → Db → ℕ → Option ℕ → ℕ → Result AccountError Account
unfolding get_by_number
resolve_money_account sub_type_of db company_id none fallback = get_by_number db company_id fallback
resolve_money_account sub_type_of db company_id (some id) fallback = do
  account ←
      or_throw (find (λ (a : Account). (a.id == id) && (a.company_id == company_id)) db.accounts)
        account_not_found
  assert_money_account (sub_type_of account.id) account
  ok account
