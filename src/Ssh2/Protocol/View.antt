-- ===== src/Ssh2/Protocol/View.antt =====
-- What protocol 2 promises of a connection, with no word of packets and handlers: a user is named
-- once, may fail a number of times below a limit, and gets in at most once.
use mathlib.Core.Bool.{false≢true}
use gexcloud.Base.{Bool, Option, ap, arith, false, refl, sym, true, ℕ, ◌+◌, ◌<◌, ◌∙◌, ◌≡◌, ◌≤◌}
use gexcloud.Text.{Bytes}

pub record View : Type 0 where
  pub named : Bool
  pub user : Option Bytes
  pub service : Option Bytes
  pub entered : Bool
  pub failures : ℕ

pub data Move (limit : ℕ) (v : View) : View → Type 0 where
  name_user :
      (user service : Option Bytes)
      → v.named ≡ false
      → v.entered ≡ false
      → Move limit v (record v { named = true; user = user; service = service })
  fail_once :
      v.named ≡ true
      → v.entered ≡ false
      → v.failures + 1 < limit
      → Move limit v (record v { failures = v.failures + 1 })
  enter : v.named ≡ true → v.entered ≡ false → Move limit v (record v { entered = true })

pub data Moves (limit : ℕ) (v : View) : View → Type 0 where
  stay : Moves limit v v
  moved : {w x : View} → Moves limit v w → Move limit w x → Moves limit v x

pub Moves-trans : {limit : ℕ} {v w x : View} → Moves limit v w → Moves limit w x → Moves limit v x
Moves-trans h stay = h
Moves-trans h (moved k m) = moved (Moves-trans h k) m

-- The user and the service of a connection stay what they were named.
abbrev pub SameName : View → View → Type 0
SameName v w = (w.named ≡ true) × (w.user ≡ v.user) × (w.service ≡ v.service)

Move-SameName : {limit : ℕ} {v w : View} → Move limit v w → v.named ≡ true → SameName v w
Move-SameName (name_user user service fresh out) e = absurd (false≢true (sym fresh ∙ e))
Move-SameName (fail_once n out room) e = (e, refl, refl)
Move-SameName (enter n out) e = (e, refl, refl)

pub Moves-SameName : {limit : ℕ} {v w : View} → Moves limit v w → v.named ≡ true → SameName v w
Moves-SameName stay e = (e, refl, refl)
Moves-SameName (moved k m) e =
    let (n, u, s) = Moves-SameName k e in
    let (n', u', s') = Move-SameName m n in (n', u' ∙ u, s' ∙ s)

no_Move : {limit : ℕ} {v w : View} → Move limit v w → v.entered ≡ true → ⊥
no_Move (name_user user service fresh out) e = false≢true (sym out ∙ e)
no_Move (fail_once n out room) e = false≢true (sym out ∙ e)
no_Move (enter n out) e = false≢true (sym out ∙ e)

-- Once a user is in, nothing moves.
pub Moves-final : {limit : ℕ} {v w : View} → Moves limit v w → v.entered ≡ true → w ≡ v
Moves-final stay e = refl
Moves-final (moved k m) e = absurd (no_Move m (ap (λ x. x.entered) (Moves-final k e) ∙ e))

-- What was counted stays counted.
pub Moves-failures_le : {limit : ℕ} {v w : View} → Moves limit v w → v.failures ≤ w.failures
Moves-failures_le stay = omega arith
Moves-failures_le (moved k (name_user user service fresh out)) = Moves-failures_le k
Moves-failures_le (moved k (fail_once n out room)) = omega (arith, Moves-failures_le k)
Moves-failures_le (moved k (enter n out)) = Moves-failures_le k
