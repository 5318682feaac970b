-- ===== src/Examples.antt =====
-- The theorems at concrete inputs, over a small world of list tables.
mod ListTable
mod World
mod Positions
mod Debts
mod Collaterals
mod Proposals
mod Histories
mod Liquidations
mod Events
mod Services
mod Client
mod Requests
mod Screens
mod Settings
use soro_lend.Prelude.{ℕ}
