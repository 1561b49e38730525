-- ===== src/Claims.antt =====
-- vertical_apps/industrial_claims: the stores of the claims product.
pub mod Fields
pub mod Stripped
pub mod Cases
pub mod Proofs
pub mod Recovery
pub mod Revisions
