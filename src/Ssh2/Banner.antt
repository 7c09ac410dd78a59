-- ===== src/Ssh2/Banner.antt =====
-- auth2_read_banner, userauth_send_banner and userauth_banner.
pub mod Bounds
use gexcloud.Base.{Option, if◌then◌else◌, length, ltb, none, not, some, ℕ, ◌*◌, ◌==◌, ◌||◌}
use gexcloud.Server.Env.{Env}
use gexcloud.Server.Event.{
  called_mm_read_banner, closed_banner, opened_banner, read_banner, sent, stated_banner,
  userauth_banner,
}
use gexcloud.Server.Monad.{M, ask, emit, match_option, pure, skip, when, ◌>>=◌, ◌>>◌}
use gexcloud.Text.{Bytes, c_string, case_eq, codes}

abbrev pub max_banner : ℕ
max_banner = 1 * 1024 * 1024

module _ (env : Env) where
  -- `none` is NULL. atomicio gives the bytes that it could read, at most the number asked for.
  unfoldable pub auth2_read_banner : M (Option Bytes)
  auth2_read_banner = do
    opened ← ask opened_banner env.open_banner
    if not opened then pure none else do
      size ← ask stated_banner env.fstat_size
      match_option size (do emit closed_banner; pure none)
          λ len. if ltb max_banner len then (do emit closed_banner; pure none) else do
            banner ← ask (read_banner len) (env.read_file len)
            emit closed_banner
            pure (if length banner == len then some (c_string banner) else none)

  unfoldable pub userauth_send_banner : Bytes → M (Unit {0})
  userauth_send_banner msg = when (not env.bug_banner) (emit (sent (userauth_banner msg)))

  abbrev pub send_found : Option Bytes → M (Unit {0})
  send_found none = skip
  send_found (some banner) = userauth_send_banner banner

  -- `PRIVSEP(auth2_read_banner())`
  unfoldable pub privsep_read_banner : M (Option Bytes)
  privsep_read_banner =
      if env.use_privsep
      then ask called_mm_read_banner env.mm_auth2_read_banner
      else auth2_read_banner

  abbrev pub send_configured : Option Bytes → M (Unit {0})
  send_configured none = skip
  send_configured (some path) =
      if case_eq path (codes "none") || env.bug_banner
      then skip
      else do banner ← privsep_read_banner; send_found banner

  unfoldable pub show_banner : M (Unit {0})
  show_banner = send_configured env.options.banner
