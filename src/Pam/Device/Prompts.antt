-- ===== src/Pam/Device/Prompts.antt =====
-- What the user is shown, and who is let in, by the keyboard-interactive device.
use mathlib.Core.List.{append-nil, append_assoc}
use gexcloud.Base.{
  Bool, List, Option, [], ap, arith, false, get_elem?, length, none, refl, some, sym, take, true, ℕ,
  ◌++◌, ◌+◌, ◌-◌, ◌∙◌, ◌∷◌, ◌≡◌,
}
use gexcloud.Pam.Context.{load_ctxt}
use gexcloud.Pam.Device.{add_message, add_prompt, query_loop, query_prompted, sshpam_query, text_of}
use gexcloud.Pam.Environment.{buffer_get_string}
use gexcloud.Pam.Environment.RoundTrip.{IsCodec, NoNul, c_string-NoNul}
use gexcloud.Server.Env.{Env}
use gexcloud.Server.Laws.{>>=-eq, or_halt-some}
use gexcloud.Server.Monad.{ok, pure}
use gexcloud.Server.Pam.{
  PamCode, pam_error_msg, pam_prompt_echo_off, pam_prompt_echo_on, pam_text_info,
}
use gexcloud.Server.State.{PamCtxt, Server}
use gexcloud.Text.{Bytes}
use gexcloud.Text.Laws.{take-all}

-- Messages of the PAM process: an error or a note, with its text.
abbrev pub Note : Type 0
Note = Bool × Bytes

abbrev pub note_type : Bool → PamCode
note_type true = pam_error_msg
note_type false = pam_text_info

abbrev pub echo_type : Bool → PamCode
echo_type true = pam_prompt_echo_on
echo_type false = pam_prompt_echo_off

-- The texts, each with its line end.
abbrev pub lines_of : List Note → Bytes
lines_of [] = []
lines_of ((e, text) ∷ notes) = (text ++ b'\n' ∷ []) ++ lines_of notes

abbrev pub AllPlain : List Note → Type 0
AllPlain [] = Unit {0}
AllPlain ((e, text) ∷ notes) = NoNul text × AllPlain notes

add_prompt-all : (o : Option Bytes) (msg : Bytes) → add_prompt o msg ≡ text_of o ++ msg
unfolding add_prompt
add_prompt-all o msg = ap (λ r. text_of o ++ r) (take-all _ msg (omega arith))

add_message-all :
    (o : Option Bytes) (msg : Bytes) → add_message o msg ≡ text_of o ++ (msg ++ b'\n' ∷ [])
unfolding add_message
add_message-all o msg =
    let plen = length (text_of o) in
    let len = plen + length msg + 2 in
    let text = take-all (len - plen - 1) msg (omega arith) in
    let line_end = take-all (len - (plen + length msg) - 1) (b'\n' ∷ []) (omega arith) in
    ap (λ r. text_of o ++ (r ++ take (len - (plen + length msg) - 1) (b'\n' ∷ []))) text
    ∙ ap (λ r. text_of o ++ (msg ++ r)) line_end

pub load_known :
    (p : ℕ) (ctxt : PamCtxt) (s : Server)
    → get_elem? s.pam.contexts p ≡ some (some ctxt)
    → load_ctxt p s ≡ (ok ctxt, s)
unfolding load_ctxt pure
load_known p ctxt s h = rw h refl

-- A query of a live object is its loop.
pub query_live :
    (env : Env) (p : ℕ) (ctxt : PamCtxt) (inbox : List (PamCode × Bytes)) (s : Server)
    → get_elem? s.pam.contexts p ≡ some (some ctxt)
    → sshpam_query env p inbox s ≡ query_loop env p none inbox s
unfolding sshpam_query
query_live env p ctxt inbox s h = >>=-eq (load_ctxt p) _ s (load_known p ctxt s h)

module _ (env : Env) (codec : IsCodec env) where
  abbrev pub sent_as : List Note → List (PamCode × Bytes) → List (PamCode × Bytes)
  sent_as [] rest = rest
  sent_as ((e, text) ∷ notes) rest = (note_type e, env.put_cstring text) ∷ sent_as notes rest

  pub get_put :
      (text rest : Bytes) (s : Server)
      → buffer_get_string env (env.put_cstring text ++ rest) s ≡ (ok (text, rest), s)
  unfolding buffer_get_string
  get_put text rest s = or_halt-some _ _ s (codec.get_string-put_cstring text rest)

  get_only :
      (text : Bytes) (s : Server)
      → buffer_get_string env (env.put_cstring text) s ≡ (ok (text, []), s)
  get_only text s =
      ap (λ b. buffer_get_string env b s) (sym (append-nil (env.put_cstring text)))
      ∙ get_put text [] s

  note-query :
      (p : ℕ) (o : Option Bytes) (e : Bool) (text : Bytes) (inbox : List (PamCode × Bytes))
      (s : Server)
      → NoNul text
      → query_loop env p o ((note_type e, env.put_cstring text) ∷ inbox) s
        ≡ query_loop env p (some (add_message o text)) inbox s
  unfolding query_loop
  note-query p o true text inbox s h =
      >>=-eq (buffer_get_string env _) _ s (get_only text s) ∙ rw (c_string-NoNul text h) refl
  note-query p o false text inbox s h =
      >>=-eq (buffer_get_string env _) _ s (get_only text s) ∙ rw (c_string-NoNul text h) refl

  -- What is kept of the notes while the loop goes on.
  abbrev collected : Option Bytes → List Note → Option Bytes
  collected o [] = o
  collected o ((e, text) ∷ notes) = collected (some (add_message o text)) notes

  notes-query :
      (p : ℕ) (o : Option Bytes) (notes : List Note) (inbox : List (PamCode × Bytes)) (s : Server)
      → AllPlain notes
      → query_loop env p o (sent_as notes inbox) s ≡ query_loop env p (collected o notes) inbox s
  notes-query p o [] inbox s h = refl
  notes-query p o ((e, text) ∷ notes) inbox s h =
      note-query p o e text (sent_as notes inbox) s h.0
      ∙ notes-query p (some (add_message o text)) notes inbox s h.1

  collected-lines :
      (o : Option Bytes) (notes : List Note)
      → text_of (collected o notes) ≡ text_of o ++ lines_of notes
  collected-lines o [] = sym (append-nil (text_of o))
  collected-lines o ((e, text) ∷ notes) =
      collected-lines (some (add_message o text)) notes
      ∙ (ap (λ r. r ++ lines_of notes) (add_message-all o text)
          ∙ append_assoc (text_of o) (text ++ b'\n' ∷ []) (lines_of notes))

  shown :
      (notes : List Note) (msg : Bytes)
      → add_prompt (collected none notes) msg ≡ lines_of notes ++ msg
  shown notes msg =
      add_prompt-all (collected none notes) msg ∙ ap (λ r. r ++ msg) (collected-lines none notes)

  prompt-query :
      (p : ℕ) (o : Option Bytes) (echo : Bool) (msg : Bytes) (inbox : List (PamCode × Bytes))
      (s : Server)
      → NoNul msg
      → query_loop env p o ((echo_type echo, env.put_cstring msg) ∷ inbox) s
        ≡ (ok (query_prompted env o msg echo), s)
  unfolding query_loop pure
  prompt-query p o true msg inbox s h =
      >>=-eq (buffer_get_string env _) _ s (get_only msg s) ∙ rw (c_string-NoNul msg h) refl
  prompt-query p o false msg inbox s h =
      >>=-eq (buffer_get_string env _) _ s (get_only msg s) ∙ rw (c_string-NoNul msg h) refl

  -- Provided that buffer.c gets what it puts, and the context is live: on any number of messages
  -- without NUL and then a prompt without NUL, sshpam_query asks for one answer, with a text that is every message in
  -- order, each with a line end, and then the prompt; the answer is to be echoed as PAM asked;
  -- and the state does not change.
  pub sshpam_query-prompt :
      (p : ℕ) (notes : List Note) (echo : Bool) (msg : Bytes) (inbox : List (PamCode × Bytes))
      (s : Server) (ctxt : PamCtxt)
      → AllPlain notes
      → NoNul msg
      → get_elem? s.pam.contexts p ≡ some (some ctxt)
      → sshpam_query env p (sent_as notes ((echo_type echo, env.put_cstring msg) ∷ inbox)) s ≡ (
        ok (record {
          answered = true;
          info = [];
          num = some 1;
          prompt = some (lines_of notes ++ msg);
          echo_on = some echo;
        }),
        s,
      )
  sshpam_query-prompt p notes echo msg inbox s ctxt plain h found =
      query_live env p ctxt _ s found
      ∙ notes-query p none notes _ s plain
      ∙ (prompt-query p (collected none notes) echo msg inbox s h
          ∙ ap
              (λ t. (
                ok (record {
                  answered = true;
                  info = [];
                  num = some 1;
                  prompt = some t;
                  echo_on = some echo;
                }),
                s,
              ))
              (shown notes msg))
