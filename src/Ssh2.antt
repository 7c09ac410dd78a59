-- ===== src/Ssh2.antt =====
-- auth2.c: user authentication in protocol 2.
pub mod Banner
pub mod Methods
pub mod Finish
pub mod Request
pub mod Success
pub mod Protocol
