-- ===== src/Pam/Frame.antt =====
-- What the PAM calls leave alone.
use gexcloud.Base.{Bool, List, Option, [], arith, not, ℕ, ◌∷◌}
use gexcloud.Pam.Account.{account_outcome, do_pam_account, sshpam_password_change_required}
use gexcloud.Pam.Context.{append_loginmsg, load_ctxt, modify_pam}
use gexcloud.Pam.Conversation.{
  ask_parent, bad_count, converse_each, converse_filled, converse_with, pam_call, pam_set_item,
  passwd_reply, replies, run_dialog, sshpam_null_conv, sshpam_passwd_conv, sshpam_store_conv,
  sshpam_thread_conv, sshpam_tty_conv, store_reply, tell_parent, thread_reply, tty_reply,
}
use gexcloud.Pam.Handle.{
  end_handle, open_handle, same_user, set_item_or_end, sshpam_init, start_pam,
}
use gexcloud.Server.Env.{Env}
use gexcloud.Server.Event.{Event, History}
use gexcloud.Server.Frame.{
  Quiet, Quiet-IsFrame, SameLogin, Within, Within-SameLogin, Within-ask, Within-bind, Within-gets,
  Within-if, Within-match_option, Within-pure, login_rules,
}
use gexcloud.Server.Monad.{M, halt, modify, pure, ◌>>=◌}
use gexcloud.Server.Pam.{
  Conv, Dialog, PamCode, PamItem, PamMessage, PamResponse, change_environ, converse, finish,
  null_conv, pam_new_authtok_reqd, pam_success, passwd_conv, store_conv, thread_conv, tty_conv,
}
use gexcloud.Server.State.{Pam}
use gexcloud.Text.{Bytes}

append-Quiet : (text : Bytes) → Within Quiet (append_loginmsg text)
unfolding modify
append-Quiet text = record { at = λ s. ground arith }

environ-Quiet : (vars : List Bytes) → Within Quiet (modify (λ s. record s { environ = vars }))
unfolding modify
environ-Quiet vars = record { at = λ s. ground arith }

replies-Quiet :
    (reply : PamMessage → M (Option PamResponse)) (ms : List PamMessage)
    → ((m : PamMessage) → Within Quiet (reply m))
    → Within Quiet (replies reply ms)
unfolding replies
replies-Quiet reply [] h = Within-pure Quiet-IsFrame _
replies-Quiet reply (m ∷ ms) h =
    let rest = replies-Quiet reply ms h in
    Within-bind Quiet-IsFrame (h m) λ r.
      Within-match_option Quiet-IsFrame r (Within-pure Quiet-IsFrame _)
        (λ x. Within-bind Quiet-IsFrame rest (λ rs. Within-pure Quiet-IsFrame _))

load-Quiet : (p : ℕ) → Within Quiet (load_ctxt p)
unfolding load_ctxt halt pure
load-Quiet p = record { at = λ s. ground arith }

module _ (env : Env) where
  converse_filled-Quiet :
      (reply : PamMessage → M (Option PamResponse)) (ms : List PamMessage)
      → ((m : PamMessage) → Within Quiet (reply m))
      → Within Quiet (converse_filled env reply ms)
  unfolding converse_filled
  converse_filled-Quiet reply ms h =
      Within-bind Quiet-IsFrame (Within-ask Quiet-IsFrame _ _) λ allocated.
        Within-if Quiet-IsFrame (not allocated) (Within-pure Quiet-IsFrame _)
          (Within-bind Quiet-IsFrame (replies-Quiet reply ms h) λ rs. Within-pure Quiet-IsFrame _)

  converse_each-Quiet :
      (reply : PamMessage → M (Option PamResponse)) (ms : List PamMessage)
      → ((m : PamMessage) → Within Quiet (reply m))
      → Within Quiet (converse_each env reply ms)
  unfolding converse_each
  converse_each-Quiet reply ms h =
      Within-if Quiet-IsFrame (bad_count env ms) (Within-pure Quiet-IsFrame _)
        (converse_filled-Quiet reply ms h)

  store_reply-Quiet : (m : PamMessage) → Within Quiet (store_reply env m.msg_style m.msg)
  unfolding store_reply ◌>>=◌
  store_reply-Quiet m = record { at = λ s. ground arith }

  passwd_reply-Quiet : (m : PamMessage) → Within Quiet (passwd_reply env m.msg_style m.msg)
  unfolding passwd_reply ◌>>=◌
  passwd_reply-Quiet m = record { at = λ s. ground arith }

  tty_reply-Quiet : (m : PamMessage) → Within Quiet (tty_reply env m.msg_style m.msg)
  unfolding tty_reply ◌>>=◌
  tty_reply-Quiet m = record { at = λ s. ground arith }

  thread_reply-Quiet :
      (csock : Option ℕ) (m : PamMessage) → Within Quiet (thread_reply env csock m.msg_style m.msg)
  unfolding thread_reply ask_parent tell_parent ◌>>=◌
  thread_reply-Quiet csock m = record { at = λ s. ground arith }

  tty_conv-Quiet : (ms : List PamMessage) → Within Quiet (sshpam_tty_conv env ms)
  unfolding sshpam_tty_conv
  tty_conv-Quiet ms = Within-if Quiet-IsFrame (bad_count env ms) (Within-pure Quiet-IsFrame _) (
      Within-bind Quiet-IsFrame (Within-ask Quiet-IsFrame _ _) λ on_terminal.
        Within-if Quiet-IsFrame on_terminal (converse_filled-Quiet _ ms tty_reply-Quiet)
          (Within-pure Quiet-IsFrame _))

  thread_conv-Quiet : (p : ℕ) (ms : List PamMessage) → Within Quiet (sshpam_thread_conv env p ms)
  unfolding sshpam_thread_conv
  thread_conv-Quiet p ms =
      Within-bind Quiet-IsFrame (load-Quiet p)
        (λ ctxt. converse_each-Quiet _ ms (thread_reply-Quiet ctxt.pam_csock))

  converse_with-Quiet : (c : Conv) (ms : List PamMessage) → Within Quiet (converse_with env c ms)
  unfolding converse_with
  converse_with-Quiet null_conv ms = unfold sshpam_null_conv in Within-pure Quiet-IsFrame _
  converse_with-Quiet store_conv ms =
      unfold sshpam_store_conv in converse_each-Quiet _ ms store_reply-Quiet
  converse_with-Quiet passwd_conv ms =
      unfold sshpam_passwd_conv in converse_each-Quiet _ ms passwd_reply-Quiet
  converse_with-Quiet tty_conv ms = tty_conv-Quiet ms
  converse_with-Quiet (thread_conv p) ms = thread_conv-Quiet p ms

  -- Whatever a PAM module asks by the registered conversation function, whatever it is answered,
  -- and whatever it sets in the environment of the process: apart from that environment, only the
  -- login message and the history change, and no field of the login, of PAM's statics, of the
  -- forwarding flags or of the dispatch table.
  pub run_dialog-Quiet : (d : Dialog) → Within Quiet (run_dialog env d)
  unfolding run_dialog
  run_dialog-Quiet (finish c) = Within-pure Quiet-IsFrame c
  run_dialog-Quiet (converse ms k) =
      Within-bind Quiet-IsFrame (Within-gets Quiet-IsFrame _)
        λ c. Within-bind Quiet-IsFrame (converse_with-Quiet c ms) λ a. run_dialog-Quiet (k a)
  run_dialog-Quiet (change_environ vars d) =
      Within-bind Quiet-IsFrame (environ-Quiet vars) λ _. run_dialog-Quiet d

  pub pam_call-Quiet : (e : Event) (g : History → Dialog) → Within Quiet (pam_call env e g)
  unfolding pam_call
  pam_call-Quiet e g = Within-bind Quiet-IsFrame (Within-ask Quiet-IsFrame e g) run_dialog-Quiet

modify_pam-SameLogin : (f : Pam → Pam) → Within SameLogin (modify_pam f)
unfolding modify
modify_pam-SameLogin f = record { at = λ s. ground arith }

change_required-SameLogin : (n : ℕ) → Within SameLogin (sshpam_password_change_required n)
unfolding sshpam_password_change_required ◌>>=◌
change_required-SameLogin n = record { at = λ s. ground arith }

outcome-SameLogin : (c : PamCode) → Within SameLogin (account_outcome c)
unfolding account_outcome
outcome-SameLogin pam_success = search (login_rules, modify_pam-SameLogin)
outcome-SameLogin pam_new_authtok_reqd =
    search (login_rules, modify_pam-SameLogin, change_required-SameLogin)
outcome-SameLogin _ = search (login_rules, modify_pam-SameLogin)

module _ (env : Env) where
  pub pam_call-SameLogin : (e : Event) (g : History → Dialog) → Within SameLogin (pam_call env e g)
  pam_call-SameLogin e g = Within-SameLogin (pam_call-Quiet env e g)

  pub do_pam_account-SameLogin : Within SameLogin (do_pam_account env)
  unfolding do_pam_account
  do_pam_account-SameLogin =
      search (login_rules, modify_pam-SameLogin, pam_call-SameLogin, outcome-SameLogin) depth 8

  pam_set_item-SameLogin : (i : PamItem) → Within SameLogin (pam_set_item env i)
  unfolding pam_set_item
  pam_set_item-SameLogin i = search (login_rules, modify_pam-SameLogin)

  end_handle-SameLogin : Within SameLogin end_handle
  unfolding end_handle
  end_handle-SameLogin = search (login_rules, modify_pam-SameLogin)

  set_item_or_end-SameLogin :
      (i : PamItem) {m : M Bool} → Within SameLogin m → Within SameLogin (set_item_or_end env i m)
  unfolding set_item_or_end
  set_item_or_end-SameLogin i h =
      search (login_rules, modify_pam-SameLogin, pam_set_item-SameLogin, end_handle-SameLogin) depth
        8

  open_handle-SameLogin : (user : Bytes) → Within SameLogin (open_handle env user)
  unfolding open_handle
  open_handle-SameLogin user =
      search (login_rules, modify_pam-SameLogin, set_item_or_end-SameLogin, end_handle-SameLogin)
        depth 10

  same_user-SameLogin : (user : Bytes) → Within SameLogin (same_user env user)
  unfolding same_user
  same_user-SameLogin user = search (login_rules, modify_pam-SameLogin) depth 8

  sshpam_init-SameLogin : Within SameLogin (sshpam_init env)
  unfolding sshpam_init
  sshpam_init-SameLogin =
      search (login_rules, open_handle-SameLogin, same_user-SameLogin, end_handle-SameLogin) depth
        10

  pub start_pam-SameLogin : Within SameLogin (start_pam env)
  unfolding start_pam
  start_pam-SameLogin = search (login_rules, sshpam_init-SameLogin) depth 8
