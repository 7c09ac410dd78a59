-- ===== src/Tests.antt =====
-- A concrete server on which the theorems are applied, and what they say there.
pub mod World
pub mod Servers
pub mod Auth
pub mod Ssh1
pub mod Ssh2
pub mod Pam
pub mod Exchange
pub mod Signals
pub mod Guesses
pub mod Vouched
