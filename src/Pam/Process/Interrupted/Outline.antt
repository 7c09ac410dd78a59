-- ===== src/Pam/Process/Interrupted/Outline.antt =====
-- Reasoning about an interrupted program: a phase for each of its points, with what holds there.
use gexcloud.Base.{◌≡◌}
use gexcloud.Pam.Process.{sshpam_sigchld_handler}
use gexcloud.Pam.Process.Interrupted.{
  Program, Steps, at_start, did_read, executed, finished, interrupted, reading, statement,
}
use gexcloud.Server.Env.{Env}
use gexcloud.Server.Monad.{ok}
use gexcloud.Server.State.{Server, sigchld_handler}

-- The program goes on: its next statement returns, and at its end `end` holds.
unfoldable pub GoesOn : (Server → Type 0) → Program → Server → Type 0
GoesOn end finished t = end t
GoesOn end (statement m rest) t = (m t).0 ≡ ok tt
GoesOn end (reading k) t = Unit {0}

module _ {Phase : Type 0} (holds : Phase → Server → Type 0) (end : Server → Type 0) where
  -- What holds at each point of a program, from the phase before it.
  unfoldable pub Outline : Phase → Program → Type 0
  Outline ph finished = (t : Server) → holds ph t → end t
  Outline ph (statement m rest) =
      (next : Phase) × ((t : Server) → holds ph t → ((m t).0 ≡ ok tt) × holds next (m t).1)
      × Outline next rest
  Outline ph (reading k) = (t : Server) → holds ph t → Outline ph (k t)

  pub Outline-GoesOn :
      (ph : Phase) (q : Program) (t : Server) → holds ph t → Outline ph q → GoesOn end q t
  unfolding GoesOn Outline
  Outline-GoesOn ph finished t h k = k t h
  Outline-GoesOn ph (statement m rest) t h (next, f, k) = (f t h).0
  Outline-GoesOn ph (reading k) t h f = tt

  -- Where the handler keeps what holds in each phase, that holds at each point that is reached.
  pub Steps-Outline :
      (env : Env)
      → ((ph : Phase) (t : Server)
          → t.pam.sigchld ≡ sigchld_handler
          → holds ph t
          → holds ph (sshpam_sigchld_handler env t).1)
      → (first : Program) (s : Server) (ph : Phase) → Outline ph first
      → holds ph s
      → (q : Program) (t : Server) → Steps env first s q t
      → (now : Phase) × holds now t × Outline now q
  unfolding Outline
  Steps-Outline env handled first s ph k h q t at_start = (ph, h, k)
  Steps-Outline env handled first s ph k h q t (executed {m} {rest} {t = u} st e) =
      let (now, x, (next, f, r)) =
        Steps-Outline env handled first s ph k h (statement m rest) u st in
      (next, (f u x).1, r)
  Steps-Outline env handled first s ph k h q t (did_read {k = r} st) =
      let (now, x, f) = Steps-Outline env handled first s ph k h (reading r) t st in (now, x, f t x)
  Steps-Outline env handled first s ph k h q t (interrupted {t = u} st e r) =
      let (now, x, f) = Steps-Outline env handled first s ph k h q u st in
      (now, handled now u e x, f)
