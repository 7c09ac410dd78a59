-- ===== src/Pam/Relay/Exchange.antt =====
-- The two ends of the socket pair together: sshpam_thread_conv of the PAM process, and
-- sshpam_query and sshpam_respond of its parent.
use gexcloud.Base.{
  Bool, List, Option, [], ap, arith, false, get_elem?, none, refl, some, true, ℕ, ◌++◌, ◌∙◌, ◌∷◌,
  ◌≡◌,
}
use gexcloud.Pam.Context.{load_ctxt}
use gexcloud.Pam.Conversation.{bad_count, sshpam_thread_conv}
use gexcloud.Pam.Device.{sshpam_query, sshpam_respond}
use gexcloud.Pam.Device.Prompts.{
  AllPlain, Note, echo_type, lines_of, load_known, sent_as, sshpam_query-prompt,
}
use gexcloud.Pam.Environment.RoundTrip.{IsCodec, NoNul}
use gexcloud.Pam.Relay.{asked, converse-script, outbox, outbox-told, script, script_replies, told}
use gexcloud.Server.Env.{Env}
use gexcloud.Server.Event.{History, called_calloc}
use gexcloud.Server.Laws.{>>=-eq}
use gexcloud.Server.Monad.{ok, ◌>>=◌}
use gexcloud.Server.Pam.{pam_authtok, pam_success}
use gexcloud.Server.State.{PamCtxt, Server, running}
use gexcloud.Text.{Bytes}

module _ (env : Env) where
  respond_from :
      (q : ℕ) (resp : Bytes) (u : Server) (o : Option (Option PamCtxt)) (parent : PamCtxt)
      → get_elem? u.pam.contexts q ≡ o
      → o ≡ some (some parent)
      → parent.pam_done ≡ running
      → outbox (sshpam_respond env q 1 resp u).1.history
        ≡ outbox u.history ++ (pam_authtok, env.put_cstring resp) ∷ []
  unfolding sshpam_respond load_ctxt ◌>>=◌
  respond_from q resp u none parent e o r = cc
  respond_from q resp u (some none) parent e o r = cc
  respond_from q resp u (some (some c)) parent e o r = ground arith

  -- The two ends of one exchange.
  pub record Exchange (notes : List Note) (echo : Bool) (msg resp : Bytes) : Type 0 where
    pub child : Server
    pub child_ptr : ℕ
    pub child_ctxt : PamCtxt
    pub child_live : get_elem? child.pam.contexts child_ptr ≡ some (some child_ctxt)
    pub nothing_sent : outbox child.history ≡ []
    pub few : bad_count env (script notes echo msg) ≡ false
    pub room : env.calloc (called_calloc ∷ child.history) ≡ true
    pub parent : Server
    pub parent_ptr : ℕ
    pub parent_ctxt : PamCtxt
    pub parent_live : get_elem? parent.pam.contexts parent_ptr ≡ some (some parent_ctxt)
    pub going_on : parent_ctxt.pam_done ≡ running
    pub notes_plain : AllPlain notes
    pub msg_plain : NoNul msg
    pub resp_plain : NoNul resp
    -- what the child receives is what the parent's sshpam_respond sends
    pub received :
        env.ssh_msg_recv (
          asked env child_ctxt.pam_csock echo msg
            (told env child_ctxt.pam_csock notes (called_calloc ∷ child.history)))
        ≡ some (pam_authtok, env.put_cstring resp)

  thread_conv-script :
      {notes : List Note} {echo : Bool} {msg resp : Bytes}
      (delivers : (h : History) → env.ssh_msg_send h ≡ true) (codec : IsCodec env)
      (x : Exchange notes echo msg resp)
      → sshpam_thread_conv env x.child_ptr (script notes echo msg) x.child ≡ (
        ok (record { code = pam_success; replies = some (script_replies notes resp) }),
        record x.child {
          history =
              asked env x.child_ctxt.pam_csock echo msg
                (told env x.child_ctxt.pam_csock notes (called_calloc ∷ x.child.history));
        },
      )
  unfolding sshpam_thread_conv
  thread_conv-script {notes} {echo} {msg} {resp} delivers codec x =
      >>=-eq (load_ctxt x.child_ptr) _ x.child
        (load_known x.child_ptr x.child_ctxt x.child x.child_live)
      ∙ converse-script env x.child_ctxt.pam_csock delivers codec notes echo msg resp x.child x.few
          x.room x.resp_plain x.received

  -- A PAM module that gives some notes and then a prompt, in the PAM process, and a user who
  -- answers the prompt, in its parent, provided that: the notes and the prompt are at most
  -- PAM_MAX_NUM_MSG messages, calloc gives the array of replies, messages are delivered, buffer.c
  -- gets what it puts, no text has a NUL, both pam_ctxt objects are live, the PAM process has sent
  -- nothing before, for its parent it has not ended, and what it receives is what sshpam_respond
  -- sends. Then sshpam_query of the parent shows the notes and the prompt, in order and whole, and
  -- asks for one answer that is echoed as the module wants; sshpam_respond sends the answer as one
  -- message; and the module gets PAM_SUCCESS, no text for each note, and for the prompt that
  -- answer.
  pub relay :
      {notes : List Note} {echo : Bool} {msg resp : Bytes}
      (delivers : (h : History) → env.ssh_msg_send h ≡ true) (codec : IsCodec env)
      (x : Exchange notes echo msg resp)
      → let told_by = sshpam_thread_conv env x.child_ptr (script notes echo msg) x.child in
        (told_by.0 ≡ ok (record { code = pam_success; replies = some (script_replies notes resp) }))
        × (sshpam_query env x.parent_ptr (outbox told_by.1.history) x.parent ≡ (
          ok (record {
            answered = true;
            info = [];
            num = some 1;
            prompt = some (lines_of notes ++ msg);
            echo_on = some echo;
          }),
          x.parent,
        ))
        × (outbox (sshpam_respond env x.parent_ptr 1 resp x.parent).1.history
            ≡ outbox x.parent.history ++ (pam_authtok, env.put_cstring resp) ∷ [])
  relay {notes} {echo} {msg} {resp} delivers codec x =
      let run = thread_conv-script delivers codec x in
      let inbox =
        ap (λ r. outbox r.1.history) run
        ∙ (outbox-told env x.child_ctxt.pam_csock delivers codec notes echo msg
              (called_calloc ∷ x.child.history)
            ∙ ap (λ b. b ++ sent_as env codec notes ((echo_type echo, env.put_cstring msg) ∷ []))
                x.nothing_sent) in
      (
        ap (λ r. r.0) run,
        ap (λ b. sshpam_query env x.parent_ptr b x.parent) inbox
            ∙ sshpam_query-prompt env codec x.parent_ptr notes echo msg [] x.parent x.parent_ctxt
                x.notes_plain x.msg_plain x.parent_live,
        respond_from x.parent_ptr resp x.parent _ x.parent_ctxt refl x.parent_live x.going_on,
      )
