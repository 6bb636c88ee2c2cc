-- ===== src/Reconciliations/Create.antt =====
-- What finishing a reconciliation does to valid books.
pub mod Stamps
pub mod Valid
use fin_matrix_backend.Prelude.{
  ℕ, ◌≡◌, refl, sym, Bool, true, false, not, List, filter, length, any, ◌==◌, ltb, ok, unbind,
  unthrow, ok-injective,
}
use fin_matrix_backend.Prelude.Int.{pos, ◌+ℤ◌, ◌-ℤ◌}
use fin_matrix_backend.Money.{Decimals, money_equals}
use fin_matrix_backend.Store.{Env}
use fin_matrix_backend.Reconciliations.{
  BankAccount, LedgerRow, Reconciliation, Books, get_reconcilable_account, is_open,
  beginning_balance, last_reconciliation, invalid_cleared_entries, cleared_entry_after_statement,
  reconciliation_out_of_order, reconciliation_out_of_balance,
}
use fin_matrix_backend.Reconciliations.Statements.{
  CreateReconciliationDto, is_out_of_order, cleared_entries, net_of_entries, new_reconciliation,
  finished, create,
}

bool_of_not : (b : Bool) → not b ≡ false → b ≡ true
bool_of_not true h = refl
bool_of_not false h = sym h

-- The rows that `cleared_entries` gives are those asked for, all of them, and none is too late.
pub record Clears (books : Books) (company_id account_id : ℕ) (dto : CreateReconciliationDto)
    (entries : List LedgerRow) : Type 0 where
  pub picked : entries ≡ filter (is_open company_id account_id dto.cleared_entry_ids) books.ledger
  pub all_found : (length entries == length dto.cleared_entry_ids) ≡ true
  pub in_time : any (λ (g : LedgerRow). ltb dto.statement_date g.entry.date) entries ≡ false

pub cleared_entries-Clears :
    (books : Books) (company_id account_id : ℕ) (dto : CreateReconciliationDto)
    (entries : List LedgerRow)
    → cleared_entries books company_id account_id dto ≡ ok entries
    → Clears books company_id account_id dto entries
unfolding cleared_entries
cleared_entries-Clears books company_id account_id dto entries h =
    unthrow (not (length given == length dto.cleared_entry_ids)) invalid_cleared_entries _ h
      λ found rest.
        unthrow (any (λ (g : LedgerRow). ltb dto.statement_date g.entry.date) given)
          cleared_entry_after_statement _ rest
          λ in_time last.
            let same : given ≡ entries = ok-injective last in
            record {
              picked = sym same;
              all_found =
                  rw same at (bool_of_not (length given == length dto.cleared_entry_ids) found);
              in_time = rw same at in_time;
            }
  where
    given : List LedgerRow
    given = filter (is_open company_id account_id dto.cleared_entry_ids) books.ledger

module _ (lib : Decimals) (env : Env) (books : Books) (company_id user_id : ℕ)
    (dto : CreateReconciliationDto) where
  -- What `create` would save for an account and the rows cleared.
  abbrev pub saved_for : ℕ → List LedgerRow → Reconciliation
  saved_for account_id entries =
      let beginning = beginning_balance lib books company_id account_id in
      new_reconciliation lib env company_id account_id user_id dto beginning
        (beginning +ℤ net_of_entries entries) (length entries)

  -- What `create` has checked, and what it returns, for the account and the rows that it found.
  pub record Created (account_id : ℕ) (entries : List LedgerRow) (out : Books × Reconciliation)
      : Type 0 where
    pub in_order :
        is_out_of_order dto.statement_date (last_reconciliation books company_id account_id) ≡ false
    pub clears : Clears books company_id account_id dto entries
    pub balanced :
        money_equals lib
          (dto.statement_ending_balance
            -ℤ (beginning_balance lib books company_id account_id +ℤ net_of_entries entries))
          (pos 0)
        ≡ true
    pub effect : out ≡ finished books entries (saved_for account_id entries)

  pub create_inv :
      (out : Books × Reconciliation)
      → create lib env books company_id user_id dto ≡ ok out
      → (account : BankAccount) × (entries : List LedgerRow) × (get_reconcilable_account books
            company_id dto.account_id
          ≡ ok account)
        × Created account.id entries out
  unfolding create
  create_inv out h =
      unbind (get_reconcilable_account books company_id dto.account_id) _ h λ account found rest.
        unthrow
          (is_out_of_order dto.statement_date (last_reconciliation books company_id account.id))
          reconciliation_out_of_order _ rest
          λ in_order rest'.
            unbind (cleared_entries books company_id account.id dto) _ rest'
              λ entries cleared rest''.
                unthrow
                  (not (
                    money_equals lib
                      (dto.statement_ending_balance
                        -ℤ (beginning_balance lib books company_id account.id
                            +ℤ net_of_entries entries))
                      (pos 0)))
                  reconciliation_out_of_balance _ rest''
                  λ balanced last. (
                    account,
                    entries,
                    found,
                    record {
                      in_order = in_order;
                      clears =
                          cleared_entries-Clears books company_id account.id dto entries cleared;
                      balanced = bool_of_not _ balanced;
                      effect = sym (ok-injective last);
                    },
                  )
