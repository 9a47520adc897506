-- ===== src/Net.antt =====
-- Addresses, lookup keys and lookup tables.
mod Addresses
mod Tables
unfoldable pub use Addresses.*
unfoldable pub use Tables.*
