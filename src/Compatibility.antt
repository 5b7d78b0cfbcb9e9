-- ===== src/Compatibility.antt =====
-- The assessments of src/steam_agent/compatibility.py. Times are seconds, `str.isprintable` is a
-- parameter, and the tests for a type or a literal hold by the types.
pub mod Texts
pub mod Evidence
pub mod Target
pub mod Candidate
pub mod Gate
pub mod Raw
pub mod Assess
pub mod Batch
pub mod Minimum
pub mod Verdict
pub mod Results
pub mod Attributed
pub mod Backing
pub mod Backed
pub mod Lookup
pub mod Interchange
pub mod OrderFree
pub mod Printable
pub mod Accepted
pub mod Derived
pub mod Raises
pub mod Total
pub mod Capacity
