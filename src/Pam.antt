-- ===== src/Pam.antt =====
-- auth-pam_next.c: the PAM side of the server, in the order in which the parts call one another.
pub mod Context
pub mod Conversation
pub mod Account
pub mod Environment
pub mod Process
pub mod Handle
pub mod Thread
pub mod Device
pub mod Session
pub mod Password
pub mod Frame
pub mod Relay
pub mod Waits
