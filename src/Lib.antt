-- ===== src/Lib.antt =====
-- The backend of FinMatrix, an accounting system for several companies: what its posting engine,
-- its journal and the rules beside them guarantee.
--
-- Every document (invoice, payment, bill, journal entry) reaches the books through
-- `PostingService.createEntry`: it checks the request, saves a journal entry, moves the balances of
-- the accounts and writes rows of the general ledger. The journal also keeps drafts, which
-- `postDraft` posts later, and voids entries by posting their reverse. A service owns the
-- transaction; the database has constraints on lines and a trigger that runs at COMMIT.
--
-- Files and what they model:
--   Prelude, Prelude/*            lists, options, results and integers that all parts share
--   Money, Money/Rounding         src/common/utils/money.util.ts
--   Store                         the tables: entities of src/modules/{companies,accounts,
--                                 journal-entries,ledger}
--   Posting/Checks                assertPeriodOpen, nextJournalReference and the checks of createEntry
--                                 of src/modules/journal-entries/posting.service.ts
--   Posting/Apply, Posting/Apply/*    applyPosting, and its reading as lines posted one at a time
--   Posting/Create, Posting/Create/*  createEntry and postDraft, and the constraints of
--                                 src/database/migrations/1783800000000-LedgerIntegrityConstraints.ts
--   Posting/Equation              the trial balance of a company
--   JournalEntries, JournalEntries/*  create, post and void of journal-entries.service.ts,
--                                 assertNotReconciled, COMMIT, and the transactions as steps
--   Reconciliations, Reconciliations/*  src/modules/reconciliations/reconciliations.service.ts: bank
--                                 statements matched, finished and undone; the roll-forward
--   Accounts                      src/modules/accounts/accounts.service.ts: how a posting finds its
--                                 accounts, with src/common/utils/money-account.util.ts
--   Invoices, Invoices/*          src/modules/invoices/invoices.service.ts: applyPayment and the open
--                                 invoices of a customer; what customers owe on invoices
--   Payments, Payments/*          src/modules/payments/payments.service.ts: receipts, advances and
--                                 their application, deletion; balances tied to invoices
--   Delivery, Delivery/*          delivery-collection.util.ts of src/modules/deliveries: what a rider
--                                 collects, and what was delivered
--   Aging, Aging/*                src/modules/reports/aging-buckets.ts and the pass of bucketAging in
--                                 reports.service.ts
--   DocumentStatus, DocumentStatus/*  src/common/utils/document-status.util.ts: the status that a
--                                 document shows, the lists and their tabs
--   CompanyStatus, CompanyStatus/*    src/common/utils/company-status.util.ts: who is let in
--   Features, Features/*          feature-map.ts and feature.guard.ts of src/common/features: what a
--                                 plan reaches
--   SalesLines, SalesLines/*      src/common/utils/sales-lines.util.ts: kinds of lines, stock positions
--                                 and backorders
--   Credit, Credit/*              src/common/utils/credit-control.util.ts: exposure, limit, override
--   Tests, Tests/*                a small company, runs of the operations, and the theorems applied
--
-- How the code is read. The tables are a record `Db`, and an operation takes it and gives a
-- `Result` with the tables after it, so that what throws changes nothing, as a transaction that is
-- rolled back. Decimals are exact integers in units of the smallest place in use; rounding to four
-- places is `toFixed` of decimal.js, a parameter (`Decimals`) with the laws that the proofs use,
-- and Money/Rounding has an instance that meets them; products and hundredths are another
-- (`Products`). A decimal has no negative zero. Ids are numbers that are only compared, numbers of
-- documents are numbers in their order, dates are day numbers, and the id that the database
-- generates, the clock and the business date come from `Env`. Transactions are taken one after the
-- other: locks and isolation belong to the database. Every loop is over a list and is a structural
-- recursion, so there is no fuel.
--
-- Not modelled: invoices as they are created, credit memos and settle(), bills, inventory, the steps
-- of a delivery, payroll, tax and the other documents, which are clients of createEntry; HTTP,
-- validation decorators and authentication; queries that only read and format, messages of
-- exceptions, and outside services.
pub mod Prelude
pub mod Money
pub mod Store
pub mod Posting
pub mod JournalEntries
pub mod Reconciliations
pub mod Accounts
pub mod Invoices
pub mod Tests
pub mod Delivery
pub mod Aging
pub mod DocumentStatus
pub mod CompanyStatus
pub mod Features
pub mod SalesLines
pub mod Payments
pub mod Credit
