-- ===== src/Ssh1/Loop/Begun.antt =====
-- The head of do_authentication: who is taken for a user.
use gexcloud.Auth.Frame.{privsep_start_pam-SameLogin}
use gexcloud.Auth.Privsep.{packet_check_eom, packet_get_cstring, privsep_start_pam}
use gexcloud.Auth.UserName.{UserSpec, split_user}
use gexcloud.Base.{
  Bool, Option, ap, arith, false, none, refl, some, subst, sym, true, ◌∙◌, ◌∷◌, ◌≡◌,
}
use gexcloud.Pam.Context.{modify_auth}
use gexcloud.Server.Env.{Env}
use gexcloud.Server.Event.{History, called_getpwnamallow, checked_eom, expected_packet, get_cstring}
use gexcloud.Server.Frame.{SameLogin, Within, login_rules}
use gexcloud.Server.Hoare.{Hoare, Hoare-bind, Hoare-frame, Hoare-gets, Hoare-modify}
use gexcloud.Server.Laws.{halt_if-ok, ok_injective}
use gexcloud.Server.Monad.{Stop, ask, disconnect, gets, halt_if, when, wrong_uid, ok, ◌>>=◌, ◌>>◌}
use gexcloud.Server.State.{Authctxt, Passwd, Server}
use gexcloud.Ssh1.Loop.{begin_authentication, set_user, wrong_owner}
use gexcloud.Text.{Bytes}

-- The entry that getpwnamallow gave for the user, or that of fakepw.
abbrev pub or_fake : Env → Option Passwd → Option Passwd
or_fake env none = some env.fakepw
or_fake env (some p) = some p

module _ (env : Env) where
  -- What has been read and asked when the packet's name is read, and when the user is looked up.
  abbrev name_read : History → History
  name_read h = get_cstring ∷ expected_packet ∷ h

  abbrev looked_up : Bytes → History → History
  looked_up text h = called_getpwnamallow (split_user text).user ∷ checked_eom ∷ name_read h

  -- A login that has begun, from the state `s`.
  pub record Begun (s t : Server) : Type 0 where
    pub valid : t.auth.valid ≡ true
    -- the name in the packet
    pub text : Bytes
    pub read : env.packet_get_cstring (get_cstring ∷ expected_packet ∷ s.history) ≡ some text
    pub user : t.auth.user ≡ some (split_user text).user
    -- what getpwnamallow answered when it was asked for that name
    pub pw :
        t.auth.pw
        ≡ or_fake env (
            env.getpwnamallow (split_user text).user (
              called_getpwnamallow (split_user text).user
              ∷ checked_eom
              ∷ get_cstring
              ∷ expected_packet
              ∷ s.history))
    pub owner : wrong_owner env t.auth.pw ≡ false

  set_user-names :
      (u : UserSpec) (o : Option Passwd) (a : Authctxt)
      → ((set_user env u o a).valid ≡ true)
        × ((set_user env u o a).user ≡ some u.user)
        × ((set_user env u o a).pw ≡ or_fake env o)
  unfolding set_user
  set_user-names u none a = (refl, refl, refl)
  set_user-names u (some p) a = (refl, refl, refl)

  pam_if_on : Within SameLogin (when env.options.use_pam (privsep_start_pam env))
  pam_if_on = search (login_rules, privsep_start_pam-SameLogin)

  -- Named for the user of `text`, with what getpwnamallow answered on `h`.
  abbrev Chosen : Bytes → History → Server → Type 0
  Chosen text h t =
      (t.auth.valid ≡ true)
      × (t.auth.user ≡ some (split_user text).user)
      × (t.auth.pw ≡ or_fake env (env.getpwnamallow (split_user text).user h))

  Chosen-kept :
      (text : Bytes) (h : History) (s t : Server)
      → SameLogin s t
      → Chosen text h s
      → Chosen text h t
  Chosen-kept text h s t k (v, u, p) = (k.valid ∙ v, k.user ∙ u, k.pw ∙ p)

  check_owner :
      (s0 : Server) (text : Bytes) (pw : Option Passwd)
      → env.packet_get_cstring (name_read s0.history) ≡ some text
      → Hoare
          (λ s. (s.auth.pw ≡ pw) × Chosen text (looked_up text s0.history) s)
          (halt_if (wrong_owner env pw) (disconnect wrong_uid))
          (λ _. Begun s0)
  check_owner s0 text pw read = record {
    after = λ s (e, (v, u, p)) a r.
        let (right, stays) = halt_if-ok (wrong_owner env pw) (disconnect wrong_uid) s r in
        subst (Begun s0) (sym stays) (record {
          valid = v;
          text = text;
          read = read;
          user = u;
          pw = p;
          owner = ap (wrong_owner env) e ∙ right;
        });
  }

  -- The history when an action begins.
  abbrev Since : History → Server → Type 0
  Since h s = s.history ≡ h

  expects :
      (h : History)
      → Hoare
          (Since h)
          (ask expected_packet env.packet_read_expect)
          (λ _. Since (expected_packet ∷ h))
  unfolding ask
  expects h = record { after = λ s p a r. ap (λ k. expected_packet ∷ k) p }

  goes_on : (h : History) (b : Bool) (e : Stop) → Hoare (Since h) (halt_if b e) (λ _. Since h)
  goes_on h b e = record { after = λ s p a r. ap (λ t. t.history) (halt_if-ok b e s r).1 ∙ p }

  reads_name :
      (h : History)
      → Hoare (Since h) (packet_get_cstring env) (λ text s.
        (env.packet_get_cstring (get_cstring ∷ h) ≡ some text) × Since (get_cstring ∷ h) s)
  unfolding ◌>>=◌
  reads_name h = record { after = λ s p text r. (ground arith, ground arith) }

  checks_eom : (h : History) → Hoare (Since h) (packet_check_eom env) (λ _. Since (checked_eom ∷ h))
  unfolding ◌>>=◌
  checks_eom h = record { after = λ s p a r. ground arith }

  choose :
      (text : Bytes) (h : History)
      → Hoare
          (Since h)
          (ask
            (called_getpwnamallow (split_user text).user)
            (env.getpwnamallow (split_user text).user))
          (λ found _.
            env.getpwnamallow
              (split_user text).user
              (called_getpwnamallow (split_user text).user ∷ h)
            ≡ found)
  unfolding ask
  choose text h = record {
    after = λ s p a r.
        ap
          (λ k.
            env.getpwnamallow (split_user text).user
              (called_getpwnamallow (split_user text).user ∷ k))
          (sym p)
        ∙ ok_injective r;
  }

  from_choice :
      (s0 : Server) (text : Bytes) (found : Option Passwd)
      → env.packet_get_cstring (name_read s0.history) ≡ some text
      → env.getpwnamallow (split_user text).user (looked_up text s0.history) ≡ found
      → Hoare
          (λ _. Unit {0})
          (do
            modify_auth (set_user env (split_user text) found)
            when env.options.use_pam (privsep_start_pam env)
            pw ← gets (λ s. s.auth.pw)
            halt_if (wrong_owner env pw) (disconnect wrong_uid))
          (λ _. Begun s0)
  from_choice s0 text found read e =
      Hoare-bind (λ _. Chosen text (looked_up text s0.history))
        (Hoare-modify _ (λ s p.
          let (v, u, w) = set_user-names (split_user text) found s.auth in
          (v, u, w ∙ ap (or_fake env) (sym e))))
        λ x.
          Hoare-bind (λ _. Chosen text (looked_up text s0.history))
            (Hoare-frame pam_if_on (Chosen-kept text (looked_up text s0.history)))
            λ y. Hoare-bind _ (Hoare-gets (λ s. s.auth.pw)) λ pw. check_owner s0 text pw read

  from_name :
      (s0 : Server) (text : Bytes)
      → Hoare
          (λ s.
            (env.packet_get_cstring (name_read s0.history) ≡ some text)
            × Since (name_read s0.history) s)
          (do
            packet_check_eom env
            found ←
                ask
                  (called_getpwnamallow (split_user text).user)
                  (env.getpwnamallow (split_user text).user)
            modify_auth (set_user env (split_user text) found)
            when env.options.use_pam (privsep_start_pam env)
            pw ← gets (λ s. s.auth.pw)
            halt_if (wrong_owner env pw) (disconnect wrong_uid))
          (λ _. Begun s0)
  from_name s0 text = record {
    after = λ s (read, since) a r.
        (Hoare-bind {R = λ _. Begun s0} (λ _. Since (checked_eom ∷ name_read s0.history))
            (checks_eom (name_read s0.history))
            λ y. Hoare-bind _ (choose text (checked_eom ∷ name_read s0.history)) λ found. record {
              after = λ t e b q. (from_choice s0 text found read e).after t tt b q;
            }).after
          s since a r;
  }

  head_Begun : (s0 : Server) → Hoare (Since s0.history) (begin_authentication env) (λ _. Begun s0)
  unfolding begin_authentication
  head_Begun s0 =
      Hoare-bind (λ _. Since (expected_packet ∷ s0.history)) (expects s0.history)
        λ expected.
          Hoare-bind (λ _. Since (expected_packet ∷ s0.history)) (goes_on _ _ _)
            λ x. Hoare-bind _ (reads_name (expected_packet ∷ s0.history)) λ text. from_name s0 text

  -- When the head of do_authentication is through, the user is marked as valid, known or not, and
  -- named by the user part of the name in the packet; its password entry is the one that
  -- getpwnamallow gave for that user part, or that of fakepw where it gave none; and without
  -- privilege separation a server that does not run as root goes on only for its own user.
  pub begin_authentication-Begun :
      (s : Server) → (begin_authentication env s).0 ≡ ok tt → Begun s (begin_authentication env s).1
  begin_authentication-Begun s h = (head_Begun s).after s refl tt h
