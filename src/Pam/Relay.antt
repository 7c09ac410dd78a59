-- ===== src/Pam/Relay.antt =====
-- What sshpam_thread_conv of the PAM process sends and gets for a script: any number of notes and
-- then a prompt.
pub mod Exchange
pub mod Verdict
use mathlib.Core.List.{append-nil, append_assoc}
use gexcloud.Base.{
  Bool, List, Option, [], ap, arith, false, none, refl, some, sym, true, ℕ, ◌++◌, ◌∙◌, ◌∷◌, ◌≡◌,
}
use gexcloud.Pam.Conversation.{
  ask_parent, bad_count, cons_reply, converse_each, converse_filled, replies, tell_parent,
  thread_reply, to_conversed,
}
use gexcloud.Pam.Device.Prompts.{Note, echo_type, note_type, sent_as}
use gexcloud.Pam.Environment.RoundTrip.{IsCodec, NoNul, c_string-NoNul}
use gexcloud.Server.Env.{Env}
use gexcloud.Server.Event.{History, called_calloc, msg_received, msg_sent}
use gexcloud.Server.Laws.{>>=-eq}
use gexcloud.Server.Monad.{M, ask, match_option, ok, pure, ◌>>=◌}
use gexcloud.Server.Pam.{
  PamCode, PamMessage, PamResponse, pam_authtok, pam_error_msg, pam_prompt_echo_off,
  pam_prompt_echo_on, pam_success, pam_text_info,
}
use gexcloud.Server.State.{Server}
use gexcloud.Text.{Bytes}

-- The messages that a history has sent, oldest first.
abbrev pub outbox : History → List (PamCode × Bytes)
outbox [] = []
outbox (msg_sent csock type payload ∷ h) = outbox h ++ (type, payload) ∷ []
outbox (_ ∷ h) = outbox h

abbrev note_message : Note → PamMessage
note_message (e, text) = record { msg_style = note_type e; msg = text }

-- Some notes and then a prompt.
abbrev pub script : List Note → Bool → Bytes → List PamMessage
script [] echo msg = record { msg_style = echo_type echo; msg = msg } ∷ []
script (note ∷ notes) echo msg = note_message note ∷ script notes echo msg

abbrev pub answer : Bytes → PamResponse
answer resp = record { resp = some resp; resp_retcode = pam_success }

-- The replies to a script whose prompt is answered by `resp`.
abbrev pub script_replies : List Note → Bytes → List PamResponse
script_replies [] resp = answer resp ∷ []
script_replies (note ∷ notes) resp =
    record { resp = none; resp_retcode = pam_success } ∷ script_replies notes resp

module _ (env : Env) where
  pub get_alone :
      (codec : IsCodec env) (text : Bytes) → env.get_string (env.put_cstring text) ≡ some (text, [])
  get_alone codec text =
      ap env.get_string (sym (append-nil (env.put_cstring text)))
      ∙ codec.get_string-put_cstring text []

  module _ (csock : Option ℕ) where
    -- The history of the PAM process when the notes have been sent.
    abbrev pub told : List Note → History → History
    told [] h = h
    told ((e, text) ∷ notes) h =
        told notes (msg_sent csock (note_type e) (env.put_cstring text) ∷ h)

    -- And when the prompt has been sent and answered.
    abbrev pub asked : Bool → Bytes → History → History
    asked echo msg h =
        msg_received csock ∷ msg_sent csock (echo_type echo) (env.put_cstring msg) ∷ h

    module _ (delivers : (h : History) → env.ssh_msg_send h ≡ true) where
      note-reply :
          (e : Bool) (text : Bytes) (s : Server)
          → thread_reply env csock (note_type e) text s ≡ (
            ok (some (record { resp = none; resp_retcode = pam_success })),
            record s { history = msg_sent csock (note_type e) (env.put_cstring text) ∷ s.history },
          )
      unfolding thread_reply tell_parent ◌>>=◌
      note-reply true text s =
          ground (arith, delivers (msg_sent csock pam_error_msg (env.put_cstring text) ∷ s.history))
      note-reply false text s =
          ground (arith, delivers (msg_sent csock pam_text_info (env.put_cstring text) ∷ s.history))

      module _ (codec : IsCodec env) where
        prompt-reply :
            (echo : Bool) (msg resp : Bytes) (s : Server)
            → NoNul resp
            → env.ssh_msg_recv (asked echo msg s.history) ≡ some (pam_authtok, env.put_cstring resp)
            → thread_reply env csock (echo_type echo) msg s
              ≡ (ok (some (answer resp)), record s { history = asked echo msg s.history })
        unfolding thread_reply ask_parent ◌>>=◌
        prompt-reply true msg resp s plain got = ground (
          arith,
          delivers (msg_sent csock pam_prompt_echo_on (env.put_cstring msg) ∷ s.history),
          get_alone codec resp,
          c_string-NoNul resp plain,
        )
        prompt-reply false msg resp s plain got = ground (
          arith,
          delivers (msg_sent csock pam_prompt_echo_off (env.put_cstring msg) ∷ s.history),
          get_alone codec resp,
          c_string-NoNul resp plain,
        )

        abbrev reply_of : PamMessage → M (Option PamResponse)
        reply_of m = thread_reply env csock m.msg_style m.msg

        script-replies :
            (notes : List Note) (echo : Bool) (msg resp : Bytes) (s : Server)
            → NoNul resp
            → env.ssh_msg_recv (asked echo msg (told notes s.history))
              ≡ some (pam_authtok, env.put_cstring resp)
            → replies reply_of (script notes echo msg) s ≡ (
              ok (some (script_replies notes resp)),
              record s { history = asked echo msg (told notes s.history) },
            )
        unfolding replies match_option pure cons_reply
        script-replies [] echo msg resp s plain got =
            >>=-eq (reply_of (record { msg_style = echo_type echo; msg = msg })) _ s
              (prompt-reply echo msg resp s plain got)
            ∙ >>=-eq (pure (some [])) _ (record s { history = asked echo msg s.history }) refl
        script-replies ((e, text) ∷ notes) echo msg resp s plain got =
            >>=-eq (reply_of (note_message (e, text))) _ s (note-reply e text s)
            ∙ >>=-eq (replies reply_of (script notes echo msg)) _ _ (
                script-replies notes echo msg resp
                  (record s {
                    history = msg_sent csock (note_type e) (env.put_cstring text) ∷ s.history;
                  })
                  plain got)

        -- What the PAM process has sent is what `sent_as` gives its parent to read.
        pub outbox-told :
            (notes : List Note) (echo : Bool) (msg : Bytes) (h : History)
            → outbox (asked echo msg (told notes h))
              ≡ outbox h ++ sent_as env codec notes ((echo_type echo, env.put_cstring msg) ∷ [])
        outbox-told [] echo msg h = refl
        outbox-told ((e, text) ∷ notes) echo msg h =
            outbox-told notes echo msg (msg_sent csock (note_type e) (env.put_cstring text) ∷ h)
            ∙ append_assoc (outbox h) ((note_type e, env.put_cstring text) ∷ [])
                (sent_as env codec notes ((echo_type echo, env.put_cstring msg) ∷ []))

        -- The conversation function of the PAM process on a script.
        pub converse-script :
            (notes : List Note) (echo : Bool) (msg resp : Bytes) (s : Server)
            → bad_count env (script notes echo msg) ≡ false
            → env.calloc (called_calloc ∷ s.history) ≡ true
            → NoNul resp
            → env.ssh_msg_recv (asked echo msg (told notes (called_calloc ∷ s.history)))
              ≡ some (pam_authtok, env.put_cstring resp)
            → converse_each env reply_of (script notes echo msg) s ≡ (
              ok (record { code = pam_success; replies = some (script_replies notes resp) }),
              record s { history = asked echo msg (told notes (called_calloc ∷ s.history)) },
            )
        unfolding converse_each converse_filled to_conversed pure ask
        converse-script notes echo msg resp s few room plain got = rw few (
            >>=-eq (ask called_calloc env.calloc) _ s refl
            ∙ rw room (
                >>=-eq (replies reply_of (script notes echo msg)) _ _ (
                  script-replies notes echo msg resp
                    (record s { history = called_calloc ∷ s.history }) plain got)))
