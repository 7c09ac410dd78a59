-- ===== src/Pam/Waits.antt =====
-- The ways in which a call of PAM may end the process.
use gexcloud.Base.{List, Option, [], arith, get_elem?, none, some, ℕ, ◌∷◌}
use gexcloud.Pam.Account.{account_outcome, do_pam_account, sshpam_password_change_required}
use gexcloud.Pam.Context.{live, load_ctxt}
use gexcloud.Pam.Conversation.{
  ask_parent, converse_each, converse_filled, converse_with, pam_call, passwd_reply, replies,
  run_dialog, sshpam_null_conv, sshpam_passwd_conv, sshpam_store_conv, sshpam_thread_conv,
  sshpam_tty_conv, store_reply, tell_parent, thread_reply, tty_reply,
}
use gexcloud.Server.Env.{Env}
use gexcloud.Server.Event.{Event, History}
use gexcloud.Server.Monad.{M, modify, ◌>>=◌}
use gexcloud.Server.Pam.{
  Conv, Dialog, PamCode, PamMessage, PamResponse, change_environ, converse, finish, null_conv,
  pam_new_authtok_reqd, pam_success, passwd_conv, store_conv, thread_conv, tty_conv,
}
use gexcloud.Server.State.{PamCtxt}
use gexcloud.Server.Stops.{
  NoQuit, NoQuit-ask, NoQuit-bind, NoQuit-gets, NoQuit-if, NoQuit-match_option, NoQuit-pure,
  NoQuit-undefined, stop_rules,
}
use gexcloud.Text.{Bytes}

live-NoQuit : (o : Option (Option PamCtxt)) → NoQuit (live o)
live-NoQuit none = NoQuit-undefined
live-NoQuit (some none) = NoQuit-undefined
live-NoQuit (some (some c)) = NoQuit-pure c

pub load-NoQuit : (p : ℕ) → NoQuit (load_ctxt p)
unfolding load_ctxt
load-NoQuit p = record {
  not_lost = λ s. (live-NoQuit (get_elem? s.pam.contexts p)).not_lost s;
  not_exit = λ n s. (live-NoQuit (get_elem? s.pam.contexts p)).not_exit n s;
}

environ-NoQuit : (vars : List Bytes) → NoQuit (modify (λ s. record s { environ = vars }))
unfolding modify
environ-NoQuit vars = record { not_lost = λ s e. ground arith; not_exit = λ n s e. ground arith }

replies-NoQuit :
    (reply : PamMessage → M (Option PamResponse)) (ms : List PamMessage)
    → ((m : PamMessage) → NoQuit (reply m))
    → NoQuit (replies reply ms)
unfolding replies
replies-NoQuit reply [] h = NoQuit-pure _
replies-NoQuit reply (m ∷ ms) h =
    let rest = replies-NoQuit reply ms h in
    NoQuit-bind (h m)
      λ r. NoQuit-match_option r (NoQuit-pure _) (λ x. NoQuit-bind rest (λ rs. NoQuit-pure _))

module _ (env : Env) where
  each-NoQuit :
      (reply : PamMessage → M (Option PamResponse)) (ms : List PamMessage)
      → ((m : PamMessage) → NoQuit (reply m))
      → NoQuit (converse_each env reply ms)
  unfolding converse_each converse_filled
  each-NoQuit reply ms h = NoQuit-if _ (NoQuit-pure _) (
      NoQuit-bind (NoQuit-ask _ _) λ allocated.
        NoQuit-if _ (NoQuit-pure _) (NoQuit-bind (replies-NoQuit reply ms h) λ rs. NoQuit-pure _))

  store-NoQuit : (m : PamMessage) → NoQuit (store_reply env m.msg_style m.msg)
  unfolding store_reply ◌>>=◌
  store-NoQuit m = record { not_lost = λ s e. ground arith; not_exit = λ n s e. ground arith }

  passwd-NoQuit : (m : PamMessage) → NoQuit (passwd_reply env m.msg_style m.msg)
  unfolding passwd_reply ◌>>=◌
  passwd-NoQuit m = record { not_lost = λ s e. ground arith; not_exit = λ n s e. ground arith }

  tty-NoQuit : (m : PamMessage) → NoQuit (tty_reply env m.msg_style m.msg)
  unfolding tty_reply ◌>>=◌
  tty-NoQuit m = record { not_lost = λ s e. ground arith; not_exit = λ n s e. ground arith }

  thread-NoQuit :
      (csock : Option ℕ) (m : PamMessage) → NoQuit (thread_reply env csock m.msg_style m.msg)
  unfolding thread_reply ask_parent tell_parent ◌>>=◌
  thread-NoQuit csock m = record {
    not_lost = λ s e. ground arith;
    not_exit = λ n s e. ground arith;
  }

  converse-NoQuit : (c : Conv) (ms : List PamMessage) → NoQuit (converse_with env c ms)
  unfolding converse_with sshpam_null_conv sshpam_store_conv sshpam_passwd_conv sshpam_tty_conv
      sshpam_thread_conv converse_filled
  converse-NoQuit null_conv ms = NoQuit-pure _
  converse-NoQuit store_conv ms = each-NoQuit _ ms store-NoQuit
  converse-NoQuit passwd_conv ms = each-NoQuit _ ms passwd-NoQuit
  converse-NoQuit tty_conv ms = NoQuit-if _ (NoQuit-pure _) (
      NoQuit-bind (NoQuit-ask _ _) λ on_terminal.
        NoQuit-if _
          (NoQuit-bind (NoQuit-ask _ _) λ allocated.
            NoQuit-if _ (NoQuit-pure _)
              (NoQuit-bind (replies-NoQuit _ ms tty-NoQuit) λ rs. NoQuit-pure _))
          (NoQuit-pure _))
  converse-NoQuit (thread_conv p) ms =
      NoQuit-bind (load-NoQuit p) (λ ctxt. each-NoQuit _ ms (thread-NoQuit ctxt.pam_csock))

  dialog-NoQuit : (d : Dialog) → NoQuit (run_dialog env d)
  unfolding run_dialog
  dialog-NoQuit (finish c) = NoQuit-pure c
  dialog-NoQuit (converse ms k) =
      NoQuit-bind (NoQuit-gets _) λ c. NoQuit-bind (converse-NoQuit c ms) λ a. dialog-NoQuit (k a)
  dialog-NoQuit (change_environ vars d) = NoQuit-bind (environ-NoQuit vars) λ _. dialog-NoQuit d

  pub pam_call-NoQuit : (e : Event) (g : History → Dialog) → NoQuit (pam_call env e g)
  unfolding pam_call
  pam_call-NoQuit e g = NoQuit-bind (NoQuit-ask e g) dialog-NoQuit

  outcome-NoQuit : (c : PamCode) → NoQuit (account_outcome c)
  unfolding account_outcome sshpam_password_change_required ◌>>=◌
  outcome-NoQuit pam_success = record {
    not_lost = λ s e. ground arith;
    not_exit = λ n s e. ground arith;
  }
  outcome-NoQuit pam_new_authtok_reqd = record {
    not_lost = λ s e. ground arith;
    not_exit = λ n s e. ground arith;
  }
  outcome-NoQuit _ = record { not_lost = λ s e. ground arith; not_exit = λ n s e. ground arith }

  pub do_pam_account-NoQuit : NoQuit (do_pam_account env)
  unfolding do_pam_account
  do_pam_account-NoQuit = search (stop_rules, pam_call-NoQuit, outcome-NoQuit) depth 8
