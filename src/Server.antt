-- ===== src/Server.antt =====
-- The state of one sshd connection process, and the world around it.
--
-- The three source files share their state through `Authctxt` (auth.h), the statics of
-- auth-pam_next.c and the globals `options`, `loginmsg` and `no_*_forwarding_flag`; `Server`
-- holds them. Code that is not in the repository (packet.c, buffer.c, msg.c, the monitor,
-- libpam, the kernel) is the record `Env` in Server/Env.antt.
pub mod Pam
pub mod Event
pub mod Env
pub mod State
pub mod Monad
pub mod Frame
pub mod Laws
pub mod Hoare
pub mod Stops
