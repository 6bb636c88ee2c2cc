-- ===== src/Posting.antt =====
-- src/modules/journal-entries/posting.service.ts: `PostingService`, which every document posts
-- through, with the constraints that the database puts on what it writes
-- (src/database/migrations/1783800000000-LedgerIntegrityConstraints.ts).
pub mod Checks
pub mod Apply
pub mod Create
pub mod Equation
