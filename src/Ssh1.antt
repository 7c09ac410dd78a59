-- ===== src/Ssh1.antt =====
-- auth1.c: user authentication in protocol 1.
pub mod Methods
pub mod Round
pub mod Loop
pub mod Authorised
pub mod Entry
