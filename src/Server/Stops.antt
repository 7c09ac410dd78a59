-- ===== src/Server/Stops.antt =====
-- Actions that neither wait for a packet that never comes nor call _exit.
use gexcloud.Base.{
  Bool, Option, ap, false, if◌then◌else◌, inl, inr, none, some, sym, true, ℕ, ◌∙◌, ◌≡◌, ◌≢◌,
}
use gexcloud.Server.Event.{Event, History}
use gexcloud.Server.Laws.{>>=-cases}
use gexcloud.Server.Monad.{
  M, Reason, Result, Stop, ask, consult, disconnect, emit, exit, fatal, gets, halt, lost,
  match_option, modify, ok, or_halt, pure, stop, undefined, ◌>>=◌,
}
use gexcloud.Server.State.{Answered, Server}

pub record NoQuit {A : Type 0} (m : M A) : Type 0 where
  pub not_lost : (s : Server) → (m s).0 ≢ stop lost
  pub not_exit : (n : ℕ) (s : Server) → (m s).0 ≢ stop (exit n)

module _ {A : Type 0} where
  pub NoQuit-pure : (a : A) → NoQuit (pure a)
  unfolding pure
  NoQuit-pure a = record { not_lost = λ s e. cc; not_exit = λ n s e. cc }

  pub NoQuit-fatal : (r : Reason) → NoQuit {A = A} (halt (fatal r))
  unfolding halt
  NoQuit-fatal r = record { not_lost = λ s e. cc; not_exit = λ n s e. cc }

  pub NoQuit-disconnect : (r : Reason) → NoQuit {A = A} (halt (disconnect r))
  unfolding halt
  NoQuit-disconnect r = record { not_lost = λ s e. cc; not_exit = λ n s e. cc }

  pub NoQuit-undefined : NoQuit {A = A} (halt undefined)
  unfolding halt
  NoQuit-undefined = record { not_lost = λ s e. cc; not_exit = λ n s e. cc }

  pub NoQuit-gets : (g : Server → A) → NoQuit (gets g)
  unfolding gets
  NoQuit-gets g = record { not_lost = λ s e. cc; not_exit = λ n s e. cc }

  pub NoQuit-ask : (e : Event) (g : History → A) → NoQuit (ask e g)
  unfolding ask
  NoQuit-ask e g = record { not_lost = λ s q. cc; not_exit = λ n s q. cc }

  pub NoQuit-consult : (e : Event) (g : Server → Answered A) → NoQuit (consult e g)
  unfolding consult
  NoQuit-consult e g = record { not_lost = λ s q. cc; not_exit = λ n s q. cc }

  pub NoQuit-if : (b : Bool) {m n : M A} → NoQuit m → NoQuit n → NoQuit (if b then m else n)
  NoQuit-if true hm hn = hm
  NoQuit-if false hm hn = hn

  pub NoQuit-or_fatal : (o : Option A) (r : Reason) → NoQuit (or_halt o (fatal r))
  unfolding or_halt
  NoQuit-or_fatal none r = NoQuit-fatal r
  NoQuit-or_fatal (some a) r = NoQuit-pure a

  pub NoQuit-or_disconnect : (o : Option A) (r : Reason) → NoQuit (or_halt o (disconnect r))
  unfolding or_halt
  NoQuit-or_disconnect none r = NoQuit-disconnect r
  NoQuit-or_disconnect (some a) r = NoQuit-pure a

  pub NoQuit-or_undefined : (o : Option A) → NoQuit (or_halt o undefined)
  unfolding or_halt
  NoQuit-or_undefined none = NoQuit-undefined
  NoQuit-or_undefined (some a) = NoQuit-pure a

pub NoQuit-emit : (e : Event) → NoQuit (emit e)
unfolding emit
NoQuit-emit e = record { not_lost = λ s q. cc; not_exit = λ n s q. cc }

pub NoQuit-modify : (g : Server → Server) → NoQuit (modify g)
unfolding modify
NoQuit-modify g = record { not_lost = λ s q. cc; not_exit = λ n s q. cc }

pub NoQuit-match_option :
    {A B : Type 0} (o : Option A) {m : M B} {k : A → M B}
    → NoQuit m
    → ((a : A) → NoQuit (k a))
    → NoQuit (match_option o m k)
unfolding match_option
NoQuit-match_option none hm hk = hm
NoQuit-match_option (some a) hm hk = hk a

pub stop_injective : {B : Type 0} {a b : Stop} → ◌≡◌ {A = Result B} (stop a) (stop b) → a ≡ b
stop_injective q = cc

-- It is enough that what follows does not stop so where the first part can lead.
stops_at :
    {A B : Type 0} (m : M A) (f : A → M B) (s : Server) (x : Stop)
    → (m s).0 ≢ stop x
    → ((a : A) → (m s).0 ≡ ok a → (f a (m s).1).0 ≢ stop x)
    → ((m >>= f) s).0 ≢ stop x
stops_at {B} m f s x hm hf e = elim (>>=-cases m f s) [
  | inl (a, r, run) ↦ hf a r (ap (λ (p : Result B × Server). p.0) (sym run) ∙ e)
  | inr (y, r, run) ↦
      hm (r ∙ ap stop (stop_injective (ap (λ (p : Result B × Server). p.0) (sym run) ∙ e)))
]

pub NoQuit-at :
    {A B : Type 0} (m : M A) (f : A → M B) (s : Server)
    → NoQuit m
    → ((a : A) → (m s).0 ≡ ok a → (f a (m s).1).0 ≢ stop lost)
    → ((m >>= f) s).0 ≢ stop lost
NoQuit-at m f s hm hf = stops_at m f s lost (hm.not_lost s) hf

pub NoQuit-bind :
    {A B : Type 0} {m : M A} {f : A → M B} → NoQuit m → ((a : A) → NoQuit (f a)) → NoQuit (m >>= f)
NoQuit-bind {m} {f} hm hf = record {
  not_lost = λ s. NoQuit-at m f s hm (λ a e. (hf a).not_lost (m s).1);
  not_exit = λ n s. stops_at m f s (exit n) (hm.not_exit n s) (λ a e. (hf a).not_exit n (m s).1);
}

pub ruleset stop_rules = (
  NoQuit-pure, NoQuit-fatal, NoQuit-disconnect, NoQuit-undefined, NoQuit-gets, NoQuit-ask,
  NoQuit-consult, NoQuit-if, NoQuit-or_fatal, NoQuit-or_disconnect, NoQuit-or_undefined,
  NoQuit-emit, NoQuit-modify, NoQuit-match_option, NoQuit-bind,
)
