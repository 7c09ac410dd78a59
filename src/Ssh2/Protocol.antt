-- ===== src/Ssh2/Protocol.antt =====
-- Protocol 2 as a sequence of packets: dispatch_run calls the handler that is registered for the
-- packet's type, until `success` is set.
pub mod Stages
pub mod Answer
pub mod Handled
pub mod Preserved
pub mod Entered
pub mod View
pub mod Outcome
pub mod Requested
pub mod Refined
pub mod Tally
pub mod Guesses
use gexcloud.Base.{Bool, false, none, true, ℕ, ◌<◌, ◌≡◌, ◌≢◌}
use gexcloud.Server.Env.{Env}
use gexcloud.Server.Event.{History}
use gexcloud.Server.Monad.{ok}
use gexcloud.Server.State.{
  Server, Shared, adopt, on_service_request, on_userauth_request, protocol_ignore,
}
use gexcloud.Ssh2.Finish.{userauth_finish}
use gexcloud.Ssh2.Request.{do_authentication2, input_service_request, input_userauth_request}
use gexcloud.Text.{Bytes}

-- The user that the first request names is set, and valid, whoever it is.
abbrev pub IsNamed : Server → Type 0
IsNamed s =
    (s.auth.valid ≡ true) × (s.auth.user ≢ none) × (s.auth.service ≢ none) × (s.auth.pw ≢ none)

-- A connection on which nothing has happened.
pub record IsNew (s : Server) : Type 0 where
  pub waits : s.auth.success ≡ false
  pub ready : s.auth.postponed ≡ false
  pub first : s.auth.attempt ≡ 0
  pub no_failure : s.auth.failures ≡ 0

-- A postponed method of another file, such as keyboard-interactive, has got an answer: it sets its
-- two flags, and may change what is shared.
abbrev pub answered : (waits blamed : Bool) → Shared → History → Server → Server
answered waits blamed l h s = record (adopt l s) {
  auth = record (adopt l s).auth { postponed = waits; server_caused_failure = blamed };
  history = h;
}

module _ (env : Env) where
  -- A handler that ended the process has no step. The handlers of postponed methods stand in
  -- other files; they call userauth_finish with their result, whatever it is, and run only before
  -- `success`. What else happens there adds to the history and changes what is shared.
  pub data Step : Server → Server → Type 0 where
    on_service :
        (s : Server)
        → s.dispatch.service_request ≡ on_service_request
        → (input_service_request env s).0 ≡ ok tt
        → Step s (input_service_request env s).1
    on_userauth :
        (s : Server)
        → s.dispatch.userauth_request ≡ on_userauth_request
        → (input_userauth_request env s).0 ≡ ok tt
        → Step s (input_userauth_request env s).1
    on_response :
        (s : Server) (p f : Bool) (l : Shared) (h : History) (n : ℕ) (method : Bytes)
        → s.auth.success ≡ false
        → s.auth.postponed ≡ true
        → (userauth_finish env n method (answered p f l h s)).0 ≡ ok tt
        → Step s (userauth_finish env n method (answered p f l h s)).1
    elsewhere :
        (s : Server) (l : Shared) (h : History) → Step s (record (adopt l s) { history = h })

  pub data Reachable (start : Server) : Server → Type 0 where
    begun : Reachable start (do_authentication2 env start).1
    stepped : {s t : Server} → Reachable start s → Step s t → Reachable start t

  -- Any number of further packets.
  pub data Later (s : Server) : Server → Type 0 where
    now : Later s s
    then_step : {t u : Server} → Later s t → Step t u → Later s u

  -- What holds between two packets.
  pub record Between (s : Server) : Type 0 where
    -- no further request is handled once the user is in
    pub closed : s.auth.success ≡ true → s.dispatch.userauth_request ≡ protocol_ignore
    -- after the first request all that later ones read is there
    pub named : s.auth.attempt ≢ 0 → IsNamed s
    -- a method postpones only after a request
    pub waiting : s.auth.postponed ≡ true → s.auth.attempt ≢ 0
    pub below : s.auth.failures < env.options.max_authtries
