-- ===== src/Pam/Account/Bits.antt =====
-- The bit with which a pending password change forbids forwarding.
use gexcloud.Base.{Bool, arith, false, if◌then◌else◌, refl, true, ℕ, ◌%◌, ◌/◌, ◌==◌, ◌≡◌}
use gexcloud.Pam.Account.{clear_bit, forbid, permit, set_bit, sshpam_password_change_required}
use gexcloud.Server.Monad.{ok, ◌>>=◌}
use gexcloud.Server.State.{Forwarding, Server}

-- The bit is 1 or 0, and the others are those of `f`.
abbrev pub Changed : ℕ → ℕ → ℕ → Type 0
Changed bit f g = ((g / 2) % 2 ≡ bit) × (g % 2 ≡ f % 2) × (g / 4 ≡ f / 4)

set_bit-Changed : (f : ℕ) → Changed 1 f (set_bit f)
set_bit-Changed f = ground arith

clear_bit-Changed : (f : ℕ) → Changed 0 f (clear_bit f)
clear_bit-Changed f = ground arith

abbrev pub AllChanged : ℕ → Forwarding → Forwarding → Type 0
AllChanged bit f g =
    Changed bit f.no_port g.no_port
    × Changed bit f.no_agent g.no_agent
    × Changed bit f.no_x11 g.no_x11

pub change_required-run :
    (n : ℕ) (s : Server)
    → s.pam.authctxt_set ≡ true
    → sshpam_password_change_required n s ≡ (
      ok tt,
      record s {
        auth = record s.auth { force_pwchange = n };
        forwarding = if n == 0 then permit s.forwarding else forbid s.forwarding;
      },
    )
unfolding sshpam_password_change_required ◌>>=◌
change_required-run n s h = ground arith

changed_by :
    (b : Bool) (f : Forwarding)
    → AllChanged (if b then 0 else 1) f (if b then permit f else forbid f)
changed_by true f =
    (clear_bit-Changed f.no_port, clear_bit-Changed f.no_agent, clear_bit-Changed f.no_x11)
changed_by false f =
    (set_bit-Changed f.no_port, set_bit-Changed f.no_agent, set_bit-Changed f.no_x11)

-- Where sshpam_authctxt is set, sshpam_password_change_required returns and stores its argument;
-- it sets the bit of value 2 in each of the three forwarding flags if a change is required and
-- clears it if not, and every other bit of the three stays.
pub change_required-bits :
    (n : ℕ) (s : Server)
    → s.pam.authctxt_set ≡ true
    → ((sshpam_password_change_required n s).0 ≡ ok tt)
      × AllChanged
          (if n == 0 then 0 else 1)
          s.forwarding
          (sshpam_password_change_required n s).1.forwarding
      × ((sshpam_password_change_required n s).1.auth.force_pwchange ≡ n)
change_required-bits n s h =
    rw (change_required-run n s h) (refl, changed_by (n == 0) s.forwarding, refl)
