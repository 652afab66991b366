-- ===== src/Canonical.antt =====
-- canonical.py
pub mod Json
pub mod Dict
pub mod Keys
pub mod Decimal
pub mod Value
pub mod Laws
pub mod Normal
pub mod Fixed
pub mod Unique
pub mod Kept
pub mod Reorder
