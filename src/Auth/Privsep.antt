-- ===== src/Auth/Privsep.antt =====
-- `PRIVSEP(f())` is `mm_f()`, a call of the monitor, if `use_privsep` is set, and `f()` if not.
use gexcloud.Base.{Bool, false, if◌then◌else◌, not, ℕ, ◌==◌}
use gexcloud.Pam.Account.{do_pam_account}
use gexcloud.Pam.Handle.{start_pam}
use gexcloud.Server.Env.{Env}
use gexcloud.Server.Event.{
  AuditEvent, audited, called_auth_root_allowed, called_mm_do_pam_account, called_mm_start_pam,
  checked_eom, get_cstring, get_string,
}
use gexcloud.Server.Monad.{
  M, ask, bad_packet, consult, disconnect, emit, gets, halt_if, or_halt, pure, undefined, when,
  ◌>>=◌,
}
use gexcloud.Text.{Bytes}

module _ (env : Env) where
  unfoldable pub account_check : M ℕ
  account_check =
      if env.use_privsep
      then consult called_mm_do_pam_account env.mm_do_pam_account
      else do_pam_account env

  unfoldable pub privsep_start_pam : M (Unit {0})
  privsep_start_pam = if env.use_privsep then emit called_mm_start_pam else start_pam env

  -- `#ifdef SSH_AUDIT_EVENTS PRIVSEP(audit_event(e)); #endif`
  abbrev pub audit : AuditEvent → M (Unit {0})
  audit e = when env.build.audit_events (emit (audited e))

  -- packet.c ends the process on a malformed packet.
  abbrev pub packet_get_string : M Bytes
  packet_get_string = do
    text ← ask get_string env.packet_get_string
    or_halt text (disconnect bad_packet)

  abbrev pub packet_get_cstring : M Bytes
  packet_get_cstring = do
    text ← ask get_cstring env.packet_get_cstring
    or_halt text (disconnect bad_packet)

  abbrev pub packet_check_eom : M (Unit {0})
  packet_check_eom = do
    at_end ← ask checked_eom env.packet_check_eom
    halt_if (not at_end) (disconnect bad_packet)

  -- `authctxt->pw->pw_uid == 0 && !auth_root_allowed(method)`
  unfoldable pub root_refused : Bytes → M Bool
  root_refused method = do
    known ← gets (λ s. s.auth.pw)
    pw ← or_halt known undefined
    if not (pw.pw_uid == 0) then pure false else do
      allowed ← ask (called_auth_root_allowed method) (env.auth_root_allowed method)
      pure (not allowed)
