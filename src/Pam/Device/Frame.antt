-- ===== src/Pam/Device/Frame.antt =====
-- What of the device, of sshpam_init and of the handler of SIGCHLD leaves the pam_ctxt objects
-- alone.
use gexcloud.Base.{Bool, Option, arith, if◌then◌else◌, not, suc, true, zero, ℕ, ◌==◌}
use gexcloud.Pam.Account.{sshpam_password_change_required}
use gexcloud.Pam.Context.{modify_pam}
use gexcloud.Pam.Conversation.{pam_set_item}
use gexcloud.Pam.Device.{Respond, respond_done, respond_error, send_response, sshpam_respond}
use gexcloud.Pam.Environment.{
  buffer_get_int, buffer_get_string, get_strings, import_environments, import_pam_env, pam_putenv,
}
use gexcloud.Pam.Handle.{open_handle, same_user, set_item_or_end, sshpam_init}
use gexcloud.Pam.Process.{judge_status, sshpam_sigchld_handler}
use gexcloud.Pam.Process.Owned.{SameContexts, SameContexts-IsFrame}
use gexcloud.Pam.Process.Writes.{
  end_handle-SameContexts, load-SameContexts, modify-SameContexts, set_err-SameContexts,
  status-SameContexts,
}
use gexcloud.Server.Env.{Env}
use gexcloud.Server.Frame.{Within, Within-bind, login_rules}
use gexcloud.Server.Monad.{M, halt, pure, ◌>>=◌, ◌>>◌}
use gexcloud.Server.Pam.{PamItem}
use gexcloud.Server.State.{PamDone, WaitStatus, failed, running, succeeded}
use gexcloud.Text.{Bytes}

module _ (env : Env) where
  pub item-SameContexts : (i : PamItem) → Within SameContexts (pam_set_item env i)
  unfolding pam_set_item
  item-SameContexts i = search (login_rules, SameContexts-IsFrame, modify-SameContexts) depth 8

  pub set_item-SameContexts :
      (i : PamItem) {m : M Bool}
      → Within SameContexts m
      → Within SameContexts (set_item_or_end env i m)
  unfolding set_item_or_end
  set_item-SameContexts i h =
      search
        (
          login_rules, SameContexts-IsFrame, set_err-SameContexts, item-SameContexts,
          end_handle-SameContexts,
        )
        depth 8

  pub open-SameContexts : (user : Bytes) → Within SameContexts (open_handle env user)
  unfolding open_handle
  open-SameContexts user =
      search
        (
          login_rules, SameContexts-IsFrame, set_err-SameContexts, modify-SameContexts,
          set_item-SameContexts, end_handle-SameContexts,
        )
        depth 12

  pub init-SameContexts : Within SameContexts (sshpam_init env)
  unfolding sshpam_init same_user
  init-SameContexts =
      search
        (
          login_rules, SameContexts-IsFrame, open-SameContexts, end_handle-SameContexts,
          set_err-SameContexts,
        )
        depth 10

  pub get_strings-SameContexts : (n : ℕ) (b : Bytes) → Within SameContexts (get_strings env n b)
  unfolding get_strings buffer_get_string
  get_strings-SameContexts zero b = search (login_rules, SameContexts-IsFrame)
  get_strings-SameContexts (suc n) b =
      let rest = get_strings-SameContexts n in
      search (login_rules, SameContexts-IsFrame, rest) depth 8

  pub pam_env-SameContexts : (n : ℕ) (b : Bytes) → Within SameContexts (import_pam_env env n b)
  unfolding import_pam_env buffer_get_string pam_putenv
  pam_env-SameContexts zero b = search (login_rules, SameContexts-IsFrame)
  pam_env-SameContexts (suc n) b =
      let rest = pam_env-SameContexts n in search (login_rules, SameContexts-IsFrame, rest) depth 8

  pub change_required-SameContexts :
      (n : ℕ) → Within SameContexts (sshpam_password_change_required n)
  unfolding sshpam_password_change_required ◌>>=◌
  change_required-SameContexts n = record { at = λ s. ground arith }

  pub import-SameContexts : (b : Bytes) → Within SameContexts (import_environments env b)
  unfolding import_environments buffer_get_int
  import-SameContexts b =
      search
        (
          login_rules, SameContexts-IsFrame, status-SameContexts, change_required-SameContexts,
          get_strings-SameContexts, modify-SameContexts, pam_env-SameContexts,
        )
        depth 20

  judge-SameContexts : (w : Option WaitStatus) → Within SameContexts (judge_status w)
  unfolding judge_status halt pure
  judge-SameContexts w = record { at = λ s. ground arith }

  pub handler-SameContexts : Within SameContexts (sshpam_sigchld_handler env)
  unfolding sshpam_sigchld_handler
  handler-SameContexts =
      search
        (
          login_rules, SameContexts-IsFrame, modify-SameContexts, load-SameContexts,
          judge-SameContexts,
        )
        depth 16

  answer-SameContexts :
      (psock : Option ℕ) (num : ℕ) (resp : Bytes) (d : PamDone)
      → Within SameContexts (elim d as (λ _. M Respond) [
        | succeeded ↦ do modify_pam (λ q. record q { authenticated = true }); pure respond_done
        | running ↦ if not (num == 1) then pure respond_error else send_response env psock resp
        | failed ↦ pure respond_error
      ])
  answer-SameContexts psock num resp succeeded =
      search (login_rules, SameContexts-IsFrame, modify-SameContexts) depth 8
  answer-SameContexts psock num resp running = search (login_rules, SameContexts-IsFrame) depth 8
  answer-SameContexts psock num resp failed = search (login_rules, SameContexts-IsFrame) depth 8

  pub respond-SameContexts :
      (p num : ℕ) (resp : Bytes) → Within SameContexts (sshpam_respond env p num resp)
  unfolding sshpam_respond
  respond-SameContexts p num resp =
      Within-bind SameContexts-IsFrame (load-SameContexts p)
        λ c. answer-SameContexts c.pam_psock num resp c.pam_done
