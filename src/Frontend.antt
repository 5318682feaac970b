-- ===== src/Frontend.antt =====
-- The web client (frontend/src/app): its store, effects, components and services.
pub mod Models
pub mod Actions
pub mod Reducers
pub mod Effects
pub mod Session
pub mod Selectors
pub mod Badge
pub mod Components
pub mod Forms
pub mod Html
pub mod Pages
pub mod Sockets
pub mod Wallet
pub mod Login
pub mod Api
use soro_lend.Prelude.{ℕ}
