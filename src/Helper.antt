-- ===== src/Helper.antt =====
-- src/Helper.cpp: the free functions that the trading core calls.
pub mod Decimal
pub mod Sides
pub mod Dashes
pub mod Fill
pub mod Levels
pub mod Symbols
pub mod Search
pub mod Insert
pub mod Qty
pub mod Estimates
