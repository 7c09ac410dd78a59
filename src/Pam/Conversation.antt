-- ===== src/Pam/Conversation.antt =====
-- The five conversation functions, and the dialogue of a PAM call with the one registered.
-- The source repeats one loop over the messages in each; here it is `replies`, with the body of
-- the loop as its argument. A reply of `none` is `goto fail`: everything is freed, and the
-- function returns PAM_CONV_ERR.
pub mod Count
use gexcloud.Base.{
  Bool, List, Option, [], false, if◌then◌else◌, leb, length, ltb, none, not, some, true, ℕ, ◌++◌,
  ◌||◌, ◌∷◌,
}
use gexcloud.Pam.Context.{append_loginmsg, load_ctxt, modify_pam}
use gexcloud.Server.Env.{Env}
use gexcloud.Server.Event.{
  Event, History, called_calloc, called_fgets, called_isatty, called_pam_set_item,
  called_read_passphrase, called_strdup, msg_received, msg_sent, printed,
}
use gexcloud.Server.Monad.{
  M, ask, bad_packet, emit, fatal, gets, match_option, modify, or_halt, pure, ◌>>=◌, ◌>>◌,
}
use gexcloud.Server.Pam.{
  Conv, Conversed, Dialog, PamCode, PamItem, PamMessage, PamResponse, change_environ, conv_item,
  converse, finish, null_conv, pam_authtok, pam_conv_err, pam_error_msg, pam_prompt_echo_off,
  pam_prompt_echo_on, pam_success, pam_text_info, passwd_conv, store_conv, thread_conv, tty_conv,
}
use gexcloud.Text.{Bytes, c_string}

abbrev pub conv_error : Conversed
conv_error = record { code = pam_conv_err; replies = none }

unfoldable pub to_conversed : Option (List PamResponse) → Conversed
to_conversed none = conv_error
to_conversed (some rs) = record { code = pam_success; replies = some rs }

unfoldable pub cons_reply : PamResponse → Option (List PamResponse) → Option (List PamResponse)
cons_reply r none = none
cons_reply r (some rs) = some (r ∷ rs)

unfoldable pub replies :
    (PamMessage → M (Option PamResponse)) → List PamMessage → M (Option (List PamResponse))
replies reply [] = pure (some [])
replies reply (m ∷ ms) = do
  r ← reply m
  match_option r (pure none) λ x. do rs ← replies reply ms; pure (cons_reply x rs)

-- `resp` is the copy that strdup makes of `text`; a failure of strdup fails the conversation.
unfoldable pub duplicated : Bytes → Bool → Option PamResponse
duplicated text true = some (record { resp = some text; resp_retcode = pam_success })
duplicated text false = none

module _ (env : Env) where
  abbrev pub bad_count : List PamMessage → Bool
  bad_count ms = leb (length ms) 0 || ltb env.pam_max_num_msg (length ms)

  -- What the functions do around their loop: the array of replies and the result, and in front
  -- of that the test on `n`.
  unfoldable pub converse_filled :
      (PamMessage → M (Option PamResponse)) → List PamMessage → M Conversed
  converse_filled reply ms = do
    allocated ← ask called_calloc env.calloc
    if not allocated then pure conv_error else do rs ← replies reply ms; pure (to_conversed rs)

  unfoldable pub converse_each :
      (PamMessage → M (Option PamResponse)) → List PamMessage → M Conversed
  converse_each reply ms = if bad_count ms then pure conv_error else converse_filled reply ms

  unfoldable pub sshpam_null_conv : List PamMessage → M Conversed
  sshpam_null_conv ms = pure conv_error

  abbrev no_text : PamResponse
  no_text = record { resp = none; resp_retcode = pam_success }

  unfoldable pub store_reply : PamCode → Bytes → M (Option PamResponse)
  store_reply pam_error_msg text = do append_loginmsg (text ++ b'\n' ∷ []); pure (some no_text)
  store_reply pam_text_info text = do append_loginmsg (text ++ b'\n' ∷ []); pure (some no_text)
  store_reply _ text = pure none

  unfoldable pub sshpam_store_conv : List PamMessage → M Conversed
  sshpam_store_conv = converse_each (λ m. store_reply m.msg_style m.msg)

  unfoldable pub stored_message : Bytes → Bytes
  stored_message [] = []
  stored_message (c ∷ text) = c ∷ text ++ b'\n' ∷ []

  abbrev message_reply : Bytes → M (Option PamResponse)
  message_reply text = do
    append_loginmsg (stored_message text)
    copied ← ask called_strdup env.strdup
    pure (duplicated [] copied)

  abbrev password_reply : Option Bytes → M (Option PamResponse)
  password_reply none = pure none
  password_reply (some password) = do
    copied ← ask called_strdup env.strdup
    pure (duplicated password copied)

  unfoldable pub passwd_reply : PamCode → Bytes → M (Option PamResponse)
  passwd_reply pam_prompt_echo_off text = do
    password ← gets (λ s. s.pam.password)
    password_reply password
  passwd_reply pam_error_msg text = message_reply text
  passwd_reply pam_text_info text = message_reply text
  passwd_reply _ text = pure none

  unfoldable pub sshpam_passwd_conv : List PamMessage → M Conversed
  sshpam_passwd_conv = converse_each (λ m. passwd_reply m.msg_style m.msg)

  unfoldable pub or_empty : Option Bytes → Bytes
  or_empty none = []
  or_empty (some line) = line

  unfoldable pub tty_reply : PamCode → Bytes → M (Option PamResponse)
  tty_reply pam_prompt_echo_off text = do
    typed ← ask (called_read_passphrase text) env.read_passphrase
    pure (some (record { resp = typed; resp_retcode = pam_success }))
  tty_reply pam_prompt_echo_on text = do
    emit (printed text)
    line ← ask called_fgets env.fgets
    copied ← ask called_strdup env.strdup
    pure (duplicated (or_empty line) copied)
  tty_reply pam_error_msg text = do emit (printed text); pure (some no_text)
  tty_reply pam_text_info text = do emit (printed text); pure (some no_text)
  tty_reply _ text = pure none

  -- The test of `n` comes before that of the terminal.
  unfoldable pub sshpam_tty_conv : List PamMessage → M Conversed
  sshpam_tty_conv ms = if bad_count ms then pure conv_error else do
    on_terminal ← ask called_isatty env.isatty
    if on_terminal then converse_filled (λ m. tty_reply m.msg_style m.msg) ms else pure conv_error

  -- A prompt: it goes to the parent as a message, and the parent's answer has to be of type
  -- PAM_AUTHTOK. buffer_get_string ends the process on a malformed buffer.
  unfoldable pub ask_parent : Option ℕ → PamCode → Bytes → M (Option PamResponse)
  ask_parent csock style text = do
    delivered ← ask (msg_sent csock style (env.put_cstring text)) env.ssh_msg_send
    if not delivered then pure none else do
      received ← ask (msg_received csock) env.ssh_msg_recv
      elim received [
        | some (pam_authtok, payload) ↦ do
          taken ← or_halt (env.get_string payload) (fatal bad_packet)
          pure (some (record { resp = some (c_string taken.0); resp_retcode = pam_success }))
        | some (_, payload) ↦ pure none
        | none ↦ pure none
      ]

  unfoldable pub tell_parent : Option ℕ → PamCode → Bytes → M (Option PamResponse)
  tell_parent csock style text = do
    delivered ← ask (msg_sent csock style (env.put_cstring text)) env.ssh_msg_send
    pure (if delivered then some no_text else none)

  unfoldable pub thread_reply : Option ℕ → PamCode → Bytes → M (Option PamResponse)
  thread_reply csock pam_prompt_echo_off text = ask_parent csock pam_prompt_echo_off text
  thread_reply csock pam_prompt_echo_on text = ask_parent csock pam_prompt_echo_on text
  thread_reply csock pam_error_msg text = tell_parent csock pam_error_msg text
  thread_reply csock pam_text_info text = tell_parent csock pam_text_info text
  thread_reply csock _ text = pure none

  -- `appdata_ptr` is the pam_ctxt at `p`.
  unfoldable pub sshpam_thread_conv : ℕ → List PamMessage → M Conversed
  sshpam_thread_conv p ms = do
    ctxt ← load_ctxt p
    converse_each (λ m. thread_reply ctxt.pam_csock m.msg_style m.msg) ms

  -- libpam calls the function that is registered as PAM_CONV at the time.
  unfoldable pub converse_with : Conv → List PamMessage → M Conversed
  converse_with null_conv ms = sshpam_null_conv ms
  converse_with store_conv ms = sshpam_store_conv ms
  converse_with passwd_conv ms = sshpam_passwd_conv ms
  converse_with tty_conv ms = sshpam_tty_conv ms
  converse_with (thread_conv p) ms = sshpam_thread_conv p ms

  unfoldable pub run_dialog : Dialog → M PamCode
  run_dialog (finish c) = pure c
  run_dialog (converse ms k) = do
    conv ← gets (λ s. s.pam.conv)
    answer ← converse_with conv ms
    run_dialog (k answer)
  run_dialog (change_environ vars d) = do modify (λ s. record s { environ = vars }); run_dialog d

  -- A call of libpam that may converse.
  unfoldable pub pam_call : Event → (History → Dialog) → M PamCode
  pam_call e f = do dialog ← ask e f; run_dialog dialog

  -- `sshpam_err = pam_set_item(sshpam_handle, item, …)`. Only an item that libpam accepts
  -- becomes the registered conversation function.
  unfoldable pub registered : PamItem → PamCode → Conv → Conv
  registered (conv_item c) pam_success old = c
  registered _ _ old = old

  unfoldable pub pam_set_item : PamItem → M PamCode
  pam_set_item item = do
    code ← ask (called_pam_set_item item) (env.pam_set_item item)
    modify_pam (λ p. record p { conv = registered item code p.conv })
    pure code
