-- ===== src/Tests.antt =====
-- Concrete instances of the parameters, and the theorems at concrete inputs. Nothing here models
-- code of the repository.
pub mod Grid
pub mod Money
mod Arrays
mod Spot
mod Trading
mod Helpers
pub mod Positions
mod Brokers
mod Futures
pub mod Stores
mod Caches
mod Indicators
mod Candles
mod Orderbooks
