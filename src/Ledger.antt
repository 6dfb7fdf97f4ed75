-- ===== src/Ledger.antt =====
-- The ledger of paper positions: app/paper/database.py and the modules that it reads.
pub mod Trade
pub mod Contract
pub mod Control
pub mod Store
pub mod Capital
pub mod Insert
pub mod Partial
pub mod OneOpen
pub mod Reach
pub mod Tokens
pub mod Admitting
pub mod Spending
pub mod Realizing
pub mod Proceeds
pub mod Closing
pub mod Axes
pub mod Manual
