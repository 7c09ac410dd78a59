-- ===== src/Auth.antt =====
-- What auth1.c and auth2.c both do: the user name taken apart, and calls through PRIVSEP().
pub mod UserName
pub mod Privsep
pub mod Checks
pub mod Frame
