-- ===== src/Crates.antt =====
-- What the library takes from other packages: each as a record of operations with the documented
-- behaviour that the proofs use, and a small instance that shows that the record can be filled.
pub mod Digest
pub mod Http
pub mod Form
pub mod Percent
pub mod UrlCrate
pub mod Decimals
pub mod SerdeJson
pub mod Reqwest
