-- ===== src/Server/Frame.antt =====
-- What an action leaves alone: a relation between the state before and the state after, and one
-- rule for each way to build an action.
use gexcloud.Base.{Bool, Option, arith, false, if◌then◌else◌, none, some, true, ◌∷◌, ◌≡◌}
use gexcloud.Server.Event.{Event, History}
use gexcloud.Server.Monad.{
  M, Result, Stop, ask, consult, emit, gets, halt, match_option, modify, ok, or_halt, pure, stop,
  ◌>>=◌,
}
use gexcloud.Server.State.{Answered, Server, Shared, adopt}

-- `m` ends, whether with a value or not, in a state that `R` relates to the first.
pub record Within {A : Type 0} (R : Server → Server → Type 0) (m : M A) : Type 0 where
  pub at : (s : Server) → R s (m s).1

-- A relation that holds between a state and itself, composes, and takes no notice of the history.
pub record IsFrame (R : Server → Server → Type 0) : Type 0 where
  pub here : (s : Server) → R s s
  pub compose : (s t u : Server) → R s t → R t u → R s u
  pub longer : (s : Server) (h : History) → R s (record s { history = h })

module _ {R : Server → Server → Type 0} (f : IsFrame R) where
  pub Within-pure : {A : Type 0} (a : A) → Within {A = A} R (pure a)
  unfolding pure
  Within-pure a = record { at = λ s. f.here s }

  pub Within-halt : {A : Type 0} (e : Stop) → Within {A = A} R (halt e)
  unfolding halt
  Within-halt e = record { at = λ s. f.here s }

  pub Within-or_halt : {A : Type 0} (o : Option A) (e : Stop) → Within {A = A} R (or_halt o e)
  unfolding or_halt
  Within-or_halt none e = record { at = λ s. f.here s }
  Within-or_halt (some a) e = record { at = λ s. f.here s }

  pub Within-gets : {A : Type 0} (g : Server → A) → Within {A = A} R (gets g)
  unfolding gets
  Within-gets g = record { at = λ s. f.here s }

  pub Within-ask : {A : Type 0} (e : Event) (g : History → A) → Within {A = A} R (ask e g)
  unfolding ask
  Within-ask e g = record { at = λ s. f.longer s (e ∷ s.history) }

  pub Within-consult :
      {A : Type 0} (e : Event) (g : Server → Answered A)
      → ((s : Server) (l : Shared) → R s (adopt l s))
      → Within R (consult e g)
  unfolding consult
  Within-consult e g k = record {
    at = λ s.
        let s' = record s { history = e ∷ s.history } in
        f.compose s s' _ (f.longer s (e ∷ s.history)) (k s' (g s').left);
  }

  pub Within-emit : (e : Event) → Within R (emit e)
  unfolding emit
  Within-emit e = record { at = λ s. f.longer s (e ∷ s.history) }

  pub Within-modify : (g : Server → Server) → ((s : Server) → R s (g s)) → Within R (modify g)
  unfolding modify
  Within-modify g h = record { at = h }

  pub Within-if :
      {A : Type 0} (b : Bool) {m n : M A} → Within R m → Within R n → Within R (if b then m else n)
  Within-if true km kn = km
  Within-if false km kn = kn

  Within-rest :
      {A B : Type 0} (s : Server) (r : Result A) (t : Server) (g : A → M B)
      → R s t
      → ((a : A) → Within R (g a))
      → R s (((λ _. (r, t)) >>= g) s).1
  unfolding ◌>>=◌
  Within-rest s (ok a) t g h kg = f.compose s t _ h ((kg a).at t)
  Within-rest s (stop e) t g h kg = h

  pub Within-bind :
      {A B : Type 0} {m : M A} {g : A → M B}
      → Within R m
      → ((a : A) → Within R (g a))
      → Within R (m >>= g)
  unfolding ◌>>=◌
  Within-bind {m} {g} km kg = record {
    at = λ s. let (r, t) = m s in Within-rest s r t g (km.at s) kg;
  }

  pub Within-match_option :
      {A B : Type 0} (o : Option A) {m : M B} {k : A → M B}
      → Within R m
      → ((a : A) → Within R (k a))
      → Within R (match_option o m k)
  unfolding match_option
  Within-match_option none hm hk = hm
  Within-match_option (some a) hm hk = hk a

-- Only the login message, the environment of the process and the history change.
pub record Quiet (s t : Server) : Type 0 where
  pub auth : t.auth ≡ s.auth
  pub pam : t.pam ≡ s.pam
  pub forwarding : t.forwarding ≡ s.forwarding
  pub dispatch : t.dispatch ≡ s.dispatch
  pub client_user : t.client_user ≡ s.client_user

pub Quiet-IsFrame : IsFrame Quiet
Quiet-IsFrame = record {
  here = λ s. ground arith;
  compose = λ s t u h k. ground arith;
  longer = λ s h. ground arith;
}

-- Everything that a login is decided by stays; the PAM statics, the flag for a password change,
-- the forwarding flags, the login message, `client_user` and the history may change.
pub record SameLogin (s t : Server) : Type 0 where
  pub success : t.auth.success ≡ s.auth.success
  pub valid : t.auth.valid ≡ s.auth.valid
  pub postponed : t.auth.postponed ≡ s.auth.postponed
  pub server_caused_failure : t.auth.server_caused_failure ≡ s.auth.server_caused_failure
  pub attempt : t.auth.attempt ≡ s.auth.attempt
  pub failures : t.auth.failures ≡ s.auth.failures
  pub user : t.auth.user ≡ s.auth.user
  pub service : t.auth.service ≡ s.auth.service
  pub pw : t.auth.pw ≡ s.auth.pw
  pub dispatch : t.dispatch ≡ s.dispatch

pub SameLogin-IsFrame : IsFrame SameLogin
SameLogin-IsFrame = record {
  here = λ s. ground arith;
  compose = λ s t u h k. ground arith;
  longer = λ s h. ground arith;
}

pub adopt-SameLogin : (s : Server) (l : Shared) → SameLogin s (adopt l s)
adopt-SameLogin s l = ground arith

pub Quiet-SameLogin : (s t : Server) → Quiet s t → SameLogin s t
Quiet-SameLogin s t q = ground arith

pub Within-SameLogin : {A : Type 0} {m : M A} → Within Quiet m → Within SameLogin m
Within-SameLogin w = record { at = λ s. Quiet-SameLogin s _ (w.at s) }

pub ruleset login_rules = (
  Within-pure, Within-halt, Within-or_halt, Within-gets, Within-ask, Within-consult, Within-emit,
  Within-if, Within-bind, Within-match_option, SameLogin-IsFrame, adopt-SameLogin,
)
