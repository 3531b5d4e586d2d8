-- ===== src/Scanner.antt =====
-- The scanner of src/mediaman/scanner/ and the tables it works on.
pub mod Table
pub mod Pass
pub mod Eligibility
pub mod EligibilityLaws
pub mod Orphans
pub mod OrphanLaws
pub mod OrphanGuard
mod Tests
mod OrphanTests
mod ScanTests
pub mod Snapshot
pub mod DryRun
pub mod Protection
pub mod ArrDates
pub mod Upsert
pub mod Scan
pub mod ScanSteps
pub mod ScanLibrary
pub mod ScanLaws
pub mod ScanShows
pub mod ScanCounts
pub mod ScanRun
pub mod ScanWatched
pub mod ScanOnce
pub mod Batches
pub mod Sweeps
pub mod Deletion
pub mod Crash
pub mod Recovery
