-- ===== src/Export.antt =====
-- source/export.cpp: the calls that the module offers, each from its beginning to its end. Which part
-- of a call runs under the lock of the patches' list, and what other threads do meanwhile, is in
-- `Callers`.
pub mod Status
pub mod Add
pub mod Remove
pub mod Query
pub mod Adding
pub mod Applied
pub mod Calling
pub mod Blocks
pub mod Keeping
pub mod Searching
pub mod Removing
pub mod RoundTrip
