-- ===== src/Canonical/Reads.antt =====
-- What `JSON.parse` reads from the texts that `canonicalJson` writes.
pub mod Integers
pub mod Values
pub mod Arrays
pub mod Objects
pub mod Sorted
