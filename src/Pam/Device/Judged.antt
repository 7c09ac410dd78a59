-- ===== src/Pam/Device/Judged.antt =====
-- sshpam_query by the message that it judges: the first that is neither a note nor an error text.
use gexcloud.Base.{Bool, List, Option, [], false, none, some, true, ℕ, ◌∷◌}
use gexcloud.Pam.Device.{
  drain, let_in, query_failed, query_loop, query_refused, query_succeeded, set_done,
}
use gexcloud.Pam.Device.Frame.{import-SameContexts}
use gexcloud.Pam.Environment.{buffer_get_string}
use gexcloud.Pam.Process.Owned.{SameContexts, SameContexts-IsFrame}
use gexcloud.Pam.Process.Writes.{append-SameContexts, pw-SameContexts, status-SameContexts}
use gexcloud.Server.Env.{Env}
use gexcloud.Server.Frame.{Within, Within-gets, Within-or_halt, Within-pure, login_rules}
use gexcloud.Server.Hoare.{Hoare, Hoare-bind, Hoare-frame, Hoare-pure}
use gexcloud.Server.Monad.{M, bad_packet, fatal, pure, ◌>>=◌}
use gexcloud.Server.Pam.{
  PamCode, pam_acct_expired, pam_auth_err, pam_error_msg, pam_prompt_echo_off, pam_prompt_echo_on,
  pam_success, pam_text_info,
}
use gexcloud.Server.State.{Server, failed, succeeded}
use gexcloud.Text.{Bytes}

-- The first message that is no text is PAM_SUCCESS.
unfoldable pub says_success : List (PamCode × Bytes) → Bool
says_success [] = false
says_success ((pam_error_msg, payload) ∷ inbox) = says_success inbox
says_success ((pam_text_info, payload) ∷ inbox) = says_success inbox
says_success ((pam_success, payload) ∷ inbox) = true
says_success ((_, payload) ∷ inbox) = false

-- `before` holds of the state in which the query begins, `after` of that in which it returns; of
-- the objects, it only writes pam_done of its own.
module _ (env : Env) (p : ℕ) (before : Server → Type 0) (after : Bool → Server → Type 0)
    (kept : (s t : Server) → SameContexts s t → before s → before t)
    (untold : (s : Server) → before s → after false s)
    (set_failed : Hoare before (set_done p failed) (λ _. after false))
    (set_succeeded : Hoare before (set_done p succeeded) (λ _. after true)) where
  keeps : {A : Type 0} {m : M A} → Within SameContexts m → Hoare before m (λ _. before)
  keeps w = Hoare-frame w kept

  ends :
      {A : Type 0} (b : Bool) {m : M (Unit {0})} (a : A)
      → Hoare before m (λ _. after b)
      → Hoare before (m >>= λ _. pure a) (λ _. after b)
  ends b a h = Hoare-bind (λ _. after b) h λ x. Hoare-pure a (λ s k. k)

  drain-SameContexts : (t : Option Bytes) → Within SameContexts (drain t)
  drain-SameContexts none = Within-pure SameContexts-IsFrame tt
  drain-SameContexts (some t) = append-SameContexts t

  refused-Judged :
      (prompts : Option Bytes) → Hoare before (query_refused env p prompts) (λ _. after false)
  refused-Judged prompts =
      Hoare-bind (λ _. before) (keeps (drain-SameContexts prompts))
        λ x.
          Hoare-bind (λ _. before)
            (keeps (Within-gets SameContexts-IsFrame (λ s. s.pam.authctxt_set)))
            λ known.
              Hoare-bind (λ _. before) (keeps (search (login_rules, SameContexts-IsFrame)))
                λ y. ends false _ set_failed

  failed-Judged :
      (prompts : Option Bytes) → Hoare before (query_failed env p prompts) (λ _. after false)
  unfolding query_failed
  failed-Judged none = refused-Judged none
  failed-Judged (some []) = refused-Judged (some [])
  failed-Judged (some (c ∷ t)) = ends false _ set_failed

  succeeded-Judged :
      (prompts : Option Bytes) (payload : Bytes)
      → Hoare before (query_succeeded env p prompts payload) (λ _. after true)
  unfolding query_succeeded
  succeeded-Judged prompts payload =
      Hoare-bind (λ _. before) (keeps (drain-SameContexts prompts))
        λ x.
          Hoare-bind (λ _. before) (keeps pw-SameContexts)
            λ pw.
              Hoare-bind (λ _. before) (keeps (search (login_rules, SameContexts-IsFrame)))
                λ y.
                  Hoare-bind (λ _. before) (keeps (import-SameContexts env payload))
                    λ z. ends true let_in set_succeeded

  take-Judged :
      {A : Type 0} {b : Bool} {f : Bytes × Bytes → M A} (payload : Bytes)
      → ((taken : Bytes × Bytes) → Hoare before (f taken) (λ _. after b))
      → Hoare before (buffer_get_string env payload >>= f) (λ _. after b)
  unfolding buffer_get_string
  take-Judged payload h =
      Hoare-bind (λ _. before)
        (keeps (Within-or_halt SameContexts-IsFrame (env.get_string payload) (fatal bad_packet))) h

  unanswered : {A : Type 0} (a : A) → Hoare before (pure a) (λ _. after false)
  unanswered a = Hoare-pure a untold

  pub query_loop-Judged :
      (inbox : List (PamCode × Bytes)) (prompts : Option Bytes)
      → Hoare before (query_loop env p prompts inbox) (λ _. after (says_success inbox))
  unfolding query_loop says_success
  query_loop-Judged [] prompts = unanswered _
  query_loop-Judged ((pam_prompt_echo_on, b) ∷ inbox) prompts = take-Judged b λ t. unanswered _
  query_loop-Judged ((pam_prompt_echo_off, b) ∷ inbox) prompts = take-Judged b λ t. unanswered _
  query_loop-Judged ((pam_error_msg, b) ∷ inbox) prompts =
      take-Judged b λ t. query_loop-Judged inbox _
  query_loop-Judged ((pam_text_info, b) ∷ inbox) prompts =
      take-Judged b λ t. query_loop-Judged inbox _
  query_loop-Judged ((pam_acct_expired, b) ∷ inbox) prompts =
      take-Judged b
        λ t. Hoare-bind (λ _. before) (keeps (status-SameContexts 0)) λ x. failed-Judged prompts
  query_loop-Judged ((pam_auth_err, b) ∷ inbox) prompts = take-Judged b λ t. failed-Judged prompts
  query_loop-Judged ((pam_success, b) ∷ inbox) prompts =
      take-Judged b λ t. succeeded-Judged prompts t.1
  query_loop-Judged ((_, b) ∷ inbox) prompts = take-Judged b λ t. ends false _ set_failed
