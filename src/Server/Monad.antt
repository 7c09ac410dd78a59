-- ===== src/Server/Monad.antt =====
-- An action on the server's state that ends with a value, or ends the process. The state stays as
-- it was when the process ended.
use gexcloud.Base.{Bool, Option, if◌then◌else◌, none, some, ℕ, ◌∷◌}
use gexcloud.Server.Event.{Event, History}
use gexcloud.Server.State.{Answered, Server, adopt}
use gexcloud.Text.{Bytes}

-- Why `fatal`, `sigdie` or `packet_disconnect` was called.
pub data Reason : Type 0 where
  invalid_user_authenticated no_authctxt account_denied pam_authctxt_missing : Reason
  too_many_environment too_many_failures wrong_uid bad_service changed_user : Reason
  pam_disabled pam_init_failed pam_item_failed pam_call_failed root_authenticated : Reason
  out_of_memory bad_packet privsep_chauthtok thread_died thread_unclean setreuid_failed : Reason
  pam_message : Bytes → Reason

-- `undefined` is a step that C leaves undefined, such as a read through NULL; `lost` is a read
-- from a connection on which no packet comes any more; `exit` is `_exit`.
pub data Stop : Type 0 where
  fatal disconnect : Reason → Stop
  lost undefined : Stop
  exit : ℕ → Stop

pub data Result {ℓ} (A : Type ℓ) : Type ℓ where
  ok : A → Result A
  stop : Stop → Result A

abbrev pub M : Type 0 → Type 0
M A = Server → Result A × Server

module _ {A : Type 0} where
  unfoldable pub pure : A → M A
  pure a s = (ok a, s)

  unfoldable pub halt : Stop → M A
  halt e s = (stop e, s)

  unfoldable pub gets : (Server → A) → M A
  gets f s = (ok (f s), s)

  unfoldable pub or_halt : Option A → Stop → M A
  unfolding pure halt
  or_halt none e = halt e
  or_halt (some a) e = pure a

  -- A call of the outside: it becomes part of the history, and the answer depends on that.
  unfoldable pub ask : Event → (History → A) → M A
  ask e f s = (ok (f (e ∷ s.history)), record s { history = e ∷ s.history })

-- A call of authentication code in other files, which may change what is shared.
unfoldable pub consult : {A : Type 0} → Event → (Server → Answered A) → M A
consult e f s =
    let s' = record s { history = e ∷ s.history } in (ok (f s').value, adopt (f s').left s')

unfoldable pub modify : (Server → Server) → M (Unit {0})
modify f s = (ok tt, f s)

unfoldable pub emit : Event → M (Unit {0})
emit e s = (ok tt, record s { history = e ∷ s.history })

-- A branch on a pointer that may be NULL.
unfoldable pub match_option : {A B : Type 0} → Option A → M B → (A → M B) → M B
match_option none absent present = absent
match_option (some a) absent present = present a

infixl 5 ◌>>=◌ ◌>>◌
-- Opening this opens the primitive actions, too.
unfoldable pub ◌>>=◌ : {A B : Type 0} → M A → (A → M B) → M B
unfolding pure halt gets ask consult modify emit or_halt match_option
◌>>=◌ m f s = let (r, s') = m s in elim r [ ok a ↦ f a s' | stop e ↦ (stop e, s') ]

abbrev pub ◌>>◌ : {A B : Type 0} → M A → M B → M B
m >> k = m >>= λ _. k

abbrev pub skip : M (Unit {0})
skip = pure tt

-- `if (c) { m }`
abbrev pub when : Bool → M (Unit {0}) → M (Unit {0})
when c m = if c then m else skip

abbrev pub halt_if : Bool → Stop → M (Unit {0})
halt_if c e = if c then halt e else skip
