-- ===== src/Validators.antt =====
-- internal/validator: the validators, by their interface and one module for each type.
pub mod Interface
pub mod Static
pub mod TrustRoots
pub mod Auth
pub mod Cosign
pub mod Notation
pub mod Notary
