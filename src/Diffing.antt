-- ===== src/Diffing.antt =====
-- app/services/diffing.py: clause-level alignment of two versions, and their changes.
pub mod Keys
pub mod Sections
pub mod Align
