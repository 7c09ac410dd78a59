-- ===== src/Server/Pam.antt =====
-- The vocabulary of libpam that auth-pam_next.c uses: return codes, message styles, messages,
-- replies, and the dialogue that a PAM call holds with the registered conversation function.
use gexcloud.Base.{Bool, List, Option, false, true, ℕ}
use gexcloud.Text.{Bytes}

-- The codes that the source tells apart. The C compiler keeps the labels of one `switch`
-- distinct. ssh_msg_send sends them as the type byte of a message, too.
pub data PamCode : Type 0 where
  pam_success : PamCode
  pam_prompt_echo_off pam_prompt_echo_on pam_error_msg pam_text_info : PamCode
  pam_authtok pam_auth_err pam_acct_expired pam_new_authtok_reqd pam_conv_err : PamCode
  pam_other : ℕ → PamCode

-- `code == PAM_SUCCESS`
abbrev pub is_success : PamCode → Bool
is_success pam_success = true
is_success _ = false

-- struct pam_message
pub record PamMessage : Type 0 where
  pub msg_style : PamCode
  pub msg : Bytes

-- struct pam_response: `resp` is a pointer that may be NULL.
pub record PamResponse : Type 0 where
  pub resp : Option Bytes
  pub resp_retcode : PamCode

-- What a conversation function gives back: its return code and `*resp`.
pub record Conversed : Type 0 where
  pub code : PamCode
  pub replies : Option (List PamResponse)

-- A PAM call converses any number of times, each time on what it was answered, may change the
-- environment of the process in between (a module calls setenv or putenv), and returns.
pub data Dialog : Type 0 where
  finish : PamCode → Dialog
  converse : List PamMessage → (Conversed → Dialog) → Dialog
  change_environ : List Bytes → Dialog → Dialog

-- The conversation function that is registered as PAM_CONV.
pub data Conv : Type 0 where
  null_conv store_conv passwd_conv tty_conv : Conv
  thread_conv : ℕ → Conv

-- The items that the source sets.
pub data PamItem : Type 0 where
  conv_item : Conv → PamItem
  rhost_item : PamItem
  tty_item : Bytes → PamItem
