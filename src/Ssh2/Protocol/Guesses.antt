-- ===== src/Ssh2/Protocol/Guesses.antt =====
-- How many guesses a connection gets in protocol 2.
use gexcloud.Base.{
  Bool, Bool-cases, arith, false, inl, inr, refl, sym, true, ℕ, ◌+◌, ◌==◌, ◌∙◌, ◌≡◌, ◌≢◌, ◌≤◌,
}
use gexcloud.Server.Env.{Env}
use gexcloud.Server.Event.{History}
use gexcloud.Server.Monad.{disconnect, ok, stop, too_many_failures}
use gexcloud.Server.State.{Server, Shared, on_userauth_request}
use gexcloud.Ssh2.Finish.{userauth_finish}
use gexcloud.Ssh2.Protocol.{
  Between, IsNew, Reachable, Step, answered, begun, on_response, on_userauth, stepped,
}
use gexcloud.Ssh2.Protocol.Outcome.{view}
use gexcloud.Ssh2.Protocol.Preserved.{Reachable-Between}
use gexcloud.Ssh2.Protocol.Refined.{Step-Moves}
use gexcloud.Ssh2.Protocol.Stages.{limit}
use gexcloud.Ssh2.Protocol.Tally.{IsRefused, finish-Concluded, request-Concluded}
use gexcloud.Ssh2.Protocol.View.{Moves, Moves-SameName, Moves-failures_le}
use gexcloud.Ssh2.Request.{do_authentication2, input_userauth_request}
use gexcloud.Text.{Bytes, codes, str_eq}

module _ (env : Env) where
  -- Packets from `s` to `t`, among them `n` requests and answers that were refused.
  pub data Guesses (s : Server) : ℕ → Server → Type 0 where
    no_guess : Guesses s 0 s
    refused_request :
        {n : ℕ} {t : Server}
        → Guesses s n t
        → t.dispatch.userauth_request ≡ on_userauth_request
        → (input_userauth_request env t).0 ≡ ok tt
        → IsRefused (input_userauth_request env t).1
        → Guesses s (n + 1) (input_userauth_request env t).1
    refused_answer :
        {k : ℕ} {t : Server} (p f : Bool) (l : Shared) (h : History) (n : ℕ) (method : Bytes)
        → Guesses s k t
        → t.auth.success ≡ false
        → t.auth.postponed ≡ true
        → str_eq method (codes "none") ≡ false
        → (userauth_finish env n method (answered p f l h t)).0 ≡ ok tt
        → IsRefused (userauth_finish env n method (answered p f l h t)).1
        → Guesses s (k + 1) (userauth_finish env n method (answered p f l h t)).1
    other_packet : {n : ℕ} {t u : Server} → Guesses s n t → Step env t u → Guesses s n u

  Guesses-Reachable :
      {start t : Server} {n : ℕ}
      → Guesses (do_authentication2 env start).1 n t
      → Reachable env start t
  Guesses-Reachable no_guess = begun
  Guesses-Reachable (refused_request {t} g d h r) =
      stepped (Guesses-Reachable g) (on_userauth t d h)
  Guesses-Reachable (refused_answer {t} p f l h n method g out waits named e r) =
      stepped (Guesses-Reachable g) (on_response t p f l h n method out waits e)
  Guesses-Reachable (other_packet g st) = stepped (Guesses-Reachable g) st

  -- Between two packets: all guesses but one are counted, and none was made before a request.
  record Counted (n : ℕ) (t : Server) : Type 0 where
    counted : n ≤ t.auth.failures + 1
    unseen : t.auth.attempt ≡ 0 → n ≡ 0

  seen_later :
      (t u : Server) → Moves (limit env) (view t) (view u) → u.auth.attempt ≡ 0 → t.auth.attempt ≡ 0
  seen_later t u m e = elim (Bool-cases (t.auth.attempt == 0)) [
    | inl unseen ↦ ground arith
    | inr seen ↦ let n = (Moves-SameName m (rw seen refl)).0 in ground arith
  ]

  Counted-moved :
      (n : ℕ) (t u : Server) → Moves (limit env) (view t) (view u) → Counted n t → Counted n u
  Counted-moved n t u m c = record {
    counted = omega (arith, Moves-failures_le m, c.counted);
    unseen = λ e. c.unseen (seen_later t u m e);
  }

  Counted-next :
      (n : ℕ) (t u : Server)
      → Moves (limit env) (view t) (view u)
      → u.auth.attempt ≢ 0
      → (t.auth.attempt ≢ 0 → u.auth.failures ≡ t.auth.failures + 1)
      → Counted n t
      → Counted (n + 1) u
  Counted-next n t u m seen one c = record {
    counted = elim (Bool-cases (t.auth.attempt == 0)) [
      | inl fresh ↦ (let z = c.unseen (ground arith) in omega arith)
      | inr later ↦ (let e = one (ground arith) in let k = c.counted in omega arith)
    ];
    unseen = λ e. absurd (seen e);
  }

  request-Counted :
      (n : ℕ) (t : Server)
      → t.dispatch.userauth_request ≡ on_userauth_request
      → (input_userauth_request env t).0 ≡ ok tt
      → IsRefused (input_userauth_request env t).1
      → Between env t
      → Counted n t
      → Counted (n + 1) (input_userauth_request env t).1
  request-Counted n t d h r b c =
      let k = (request-Concluded env t.auth.attempt t.auth.failures).after t (refl, refl) tt h in
      Counted-next n t _ (Step-Moves env t _ (on_userauth t d h) b)
        (λ z. nonzero t.auth.attempt (sym k.attempt ∙ z)) (λ ne. k.counts ne r) c
    where
      nonzero : (a : ℕ) → a + 1 ≢ 0
      nonzero a e = omega arith

  answer-Counted :
      (k : ℕ) (t : Server) (p f : Bool) (l : Shared) (h : History) (n : ℕ) (method : Bytes)
      → t.auth.success ≡ false
      → t.auth.postponed ≡ true
      → str_eq method (codes "none") ≡ false
      → (userauth_finish env n method (answered p f l h t)).0 ≡ ok tt
      → IsRefused (userauth_finish env n method (answered p f l h t)).1
      → Between env t
      → Counted k t
      → Counted (k + 1) (userauth_finish env n method (answered p f l h t)).1
  answer-Counted k t p f l h n method out waits named e r b c =
      let x =
        (finish-Concluded env n method t.auth.attempt t.auth.failures).after (answered p f l h t)
          (refl, refl) tt e in
      Counted-next k t _ (Step-Moves env t _ (on_response t p f l h n method out waits e) b)
        (λ z. b.waiting waits (sym x.attempt ∙ z)) (λ ne. x.counts (ground arith) r) c

  Guesses-Counted :
      (start t : Server) (n : ℕ)
      → IsNew start
      → limit env ≢ 0
      → Guesses (do_authentication2 env start).1 n t
      → Counted n t
  Guesses-Counted start _ n new room no_guess = record { counted = omega arith; unseen = λ e. refl }
  Guesses-Counted start _ n new room (refused_request {n = i} {t} g d h r) =
      request-Counted i t d h r (Reachable-Between env start t new room (Guesses-Reachable g))
        (Guesses-Counted start t i new room g)
  Guesses-Counted start _ n new room
        (refused_answer {k} {t} p f l h i method g out waits named e r) =
      answer-Counted k t p f l h i method out waits named e r
        (Reachable-Between env start t new room (Guesses-Reachable g))
        (Guesses-Counted start t k new room g)
  Guesses-Counted start u n new room (other_packet {t} g st) =
      Counted-moved n t u
        (Step-Moves env t u st (Reachable-Between env start t new room (Guesses-Reachable g)))
        (Guesses-Counted start t n new room g)

  -- What the next packet does to the connection in the state `t`: `k` is 1 if it is a request or
  -- an answer that ends the connection as one failure too many, and 0 if there is no such packet.
  pub data Ending (t : Server) (k : ℕ) : Type 0 where
    still_open : k ≡ 0 → Ending t k
    last_request :
        k ≡ 1
        → t.dispatch.userauth_request ≡ on_userauth_request
        → (input_userauth_request env t).0 ≡ stop (disconnect too_many_failures)
        → Ending t k
    last_answer :
        (p f : Bool) (l : Shared) (h : History) (n : ℕ) (method : Bytes)
        → k ≡ 1
        → t.auth.success ≡ false
        → t.auth.postponed ≡ true
        → (userauth_finish env n method (answered p f l h t)).0
          ≡ stop (disconnect too_many_failures)
        → Ending t k

  Ending-le : (t : Server) (k : ℕ) → Ending t k → k ≤ 1
  Ending-le t k (still_open e) = omega arith
  Ending-le t k (last_request e d h) = omega arith
  Ending-le t k (last_answer p f l h n method e out waits s) = omega arith

  -- However the packets of a connection follow each other, from a new connection and with
  -- MaxAuthTries not 0: of all requests and answers of postponed methods that were refused with
  -- the connection kept open, not through the server's own fault and (for an answer) of a method
  -- other than "none", all but at most one are counted as failures; so there are at most
  -- MaxAuthTries of them; and with the one that ends the connection as one failure too many, if
  -- that comes next, there are at most one more than MaxAuthTries.
  pub Guesses-le :
      (start t : Server) (n k : ℕ)
      → IsNew start
      → limit env ≢ 0
      → Guesses (do_authentication2 env start).1 n t
      → Ending t k
      → (n ≤ t.auth.failures + 1)
        × (n ≤ env.options.max_authtries)
        × (n + k ≤ env.options.max_authtries + 1)
  Guesses-le start t n k new room g last =
      let c = Guesses-Counted start t n new room g in
      let b = Reachable-Between env start t new room (Guesses-Reachable g) in
      let one = Ending-le t k last in
      (c.counted, omega (arith, c.counted, b.below), omega (arith, c.counted, b.below, one))
