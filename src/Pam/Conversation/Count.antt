-- ===== src/Pam/Conversation/Count.antt =====
-- The replies that libpam gets back from a conversation function.
use gexcloud.Base.{
  Bool, List, Option, [], ap, false, if◌then◌else◌, inl, inr, length, none, refl, some, subst, suc,
  sym, true, ◌∙◌, ◌∷◌, ◌≡◌, ◌⊎◌,
}
use gexcloud.Pam.Conversation.{
  cons_reply, conv_error, converse_each, converse_filled, converse_with, replies, sshpam_null_conv,
  sshpam_passwd_conv, sshpam_store_conv, sshpam_thread_conv, sshpam_tty_conv, to_conversed,
}
use gexcloud.Server.Env.{Env}
use gexcloud.Server.Laws.{>>=-ok, pure-ok}
use gexcloud.Server.Monad.{M, Result, match_option, ok, pure, ◌>>=◌}
use gexcloud.Server.Pam.{
  Conv, Conversed, PamMessage, PamResponse, null_conv, pam_conv_err, pam_success, passwd_conv,
  store_conv, thread_conv, tty_conv,
}
use gexcloud.Server.State.{Server}

some_injective : {a b : List PamResponse} → some a ≡ some b → a ≡ b
some_injective e = cc

abbrev Answers : List PamMessage → Result (Option (List PamResponse)) → Type 0
Answers ms r = (rs : List PamResponse) → r ≡ ok (some rs) → length rs ≡ length ms

cons_reply-some :
    (r : PamResponse) (o : Option (List PamResponse)) (rs : List PamResponse)
    → cons_reply r o ≡ some rs
    → (tail : List PamResponse) × (o ≡ some tail) × (length rs ≡ suc (length tail))
unfolding cons_reply
cons_reply-some r none rs h = cc
cons_reply-some r (some tail) rs h = (tail, refl, ap length (sym (some_injective h)))

reply_then :
    (m : PamMessage) (ms : List PamMessage) (k : M (Option (List PamResponse)))
    (r : Option PamResponse) (s : Server)
    → ((t : Server) → Answers ms (k t).0)
    → Answers (m ∷ ms) (match_option r (pure none) (λ x. do rs ← k; pure (cons_reply x rs)) s).0
unfolding match_option
reply_then m ms k none s ih rs h = absurd (none_some (pure-ok none (some rs) s h))
  where
    none_some : {a : List PamResponse} → none ≡ some a → ⊥
    none_some e = cc
reply_then m ms k (some x) s ih rs h =
    let (o, e, h1) = >>=-ok k _ s h in
    let (tail, e1, n) = cons_reply-some x o rs (pure-ok _ (some rs) _ h1) in
    let ind = ih s tail (e ∙ ap ok e1) in n ∙ ap suc ind

replies-length :
    (reply : PamMessage → M (Option PamResponse)) (ms : List PamMessage) (s : Server)
    → Answers ms (replies reply ms s).0
unfolding replies
replies-length reply [] s rs h = ap length (sym (some_injective (pure-ok (some []) (some rs) s h)))
replies-length reply (m ∷ ms) s rs h =
    let (r, e, h1) = >>=-ok (reply m) _ s h in
    reply_then m ms (replies reply ms) r _ (replies-length reply ms) rs h1

module _ (env : Env) where
  -- All messages are answered, and their number was one that PAM allows; or nothing is given.
  abbrev pub Complete : List PamMessage → Conversed → Type 0
  Complete ms c =
      ((c.code ≡ pam_conv_err) × (c.replies ≡ none))
      ⊎ ((c.code ≡ pam_success)
          × ((rs : List PamResponse) × (c.replies ≡ some rs) × (length rs ≡ length ms)))

  to_conversed-Complete :
      (ms : List PamMessage) (o : Option (List PamResponse))
      → ((rs : List PamResponse) → o ≡ some rs → length rs ≡ length ms)
      → Complete ms (to_conversed o)
  unfolding to_conversed
  to_conversed-Complete ms none h = inl (refl, refl)
  to_conversed-Complete ms (some rs) h = inr (refl, (rs, refl, h rs refl))

  abbrev Completes : List PamMessage → M Conversed → Type 0
  Completes ms m = (s : Server) (c : Conversed) → (m s).0 ≡ ok c → Complete ms c

  error-Completes : (ms : List PamMessage) → Completes ms (pure conv_error)
  error-Completes ms s c h = subst (Complete ms) (pure-ok conv_error c s h) (inl (refl, refl))

  if-Completes :
      (ms : List PamMessage) (b : Bool) (m n : M Conversed)
      → Completes ms m
      → Completes ms n
      → Completes ms (if b then m else n)
  if-Completes ms true m n hm hn = hm
  if-Completes ms false m n hm hn = hn

  then-Completes :
      {A : Type 0} (ms : List PamMessage) (m : M A) (f : A → M Conversed)
      → ((a : A) → Completes ms (f a))
      → Completes ms (m >>= f)
  then-Completes ms m f k s c h = let (a, e, h1) = >>=-ok m f s h in k a _ c h1

  collect-Completes :
      (reply : PamMessage → M (Option PamResponse)) (ms : List PamMessage)
      → Completes ms (do rs ← replies reply ms; pure (to_conversed rs))
  collect-Completes reply ms s c h =
      let (o, e, h1) = >>=-ok (replies reply ms) _ s h in
      subst (Complete ms) (pure-ok (to_conversed o) c _ h1)
        (to_conversed-Complete ms o (λ rs e1. replies-length reply ms s rs (e ∙ ap ok e1)))

  filled-Completes :
      (reply : PamMessage → M (Option PamResponse)) (ms : List PamMessage)
      → Completes ms (converse_filled env reply ms)
  unfolding converse_filled
  filled-Completes reply ms =
      then-Completes ms _ _
        (λ allocated. if-Completes ms _ _ _ (error-Completes ms) (collect-Completes reply ms))

  each-Completes :
      (reply : PamMessage → M (Option PamResponse)) (ms : List PamMessage)
      → Completes ms (converse_each env reply ms)
  unfolding converse_each
  each-Completes reply ms = if-Completes ms _ _ _ (error-Completes ms) (filled-Completes reply ms)

  -- When any of the five conversation functions returns, it returns PAM_SUCCESS with one reply
  -- for each message, or PAM_CONV_ERR with none.
  pub converse_with-Complete :
      (conv : Conv) (ms : List PamMessage) (s : Server) (c : Conversed)
      → (converse_with env conv ms s).0 ≡ ok c
      → Complete ms c
  unfolding converse_with sshpam_null_conv sshpam_store_conv sshpam_passwd_conv sshpam_tty_conv
      sshpam_thread_conv
  converse_with-Complete null_conv ms s c h = error-Completes ms s c h
  converse_with-Complete store_conv ms s c h = each-Completes _ ms s c h
  converse_with-Complete passwd_conv ms s c h = each-Completes _ ms s c h
  converse_with-Complete tty_conv ms s c h =
      if-Completes ms _ _ _ (error-Completes ms)
        (then-Completes ms _ _
          (λ on. if-Completes ms _ _ _ (filled-Completes _ ms) (error-Completes ms)))
        s c h
  converse_with-Complete (thread_conv p) ms s c h =
      then-Completes ms _ _ (λ ctxt. each-Completes _ ms) s c h
