-- ===== src/Pam/Handle/Opened.antt =====
-- Which handle sshpam_init leaves.
use gexcloud.Base.{
  Bool, Option, ap, arith, false, if◌then◌else◌, inl, inr, none, refl, some, subst, sym, true, ℕ,
  ◌&&◌, ◌∙◌, ◌≡◌, ◌≢◌, ◌⊎◌,
}
use gexcloud.Pam.Conversation.{pam_set_item, registered}
use gexcloud.Pam.Handle.{
  end_handle, open_handle, same_user, set_first_items, set_item_or_end, sshpam_init,
}
use gexcloud.Server.Env.{Env}
use gexcloud.Server.Hoare.{Hoare, Hoare-bind, Hoare-if, Hoare-modify, Hoare-pure}
use gexcloud.Server.Laws.{>>=-eq, is_success-only, ok_injective, or_halt-some}
use gexcloud.Server.Monad.{M, Result, gets, match_option, ok, or_halt, pure, undefined, ◌>>=◌, ◌>>◌}
use gexcloud.Server.Pam.{
  Conv, PamCode, PamItem, is_success, pam_success, rhost_item, store_conv, tty_item,
}
use gexcloud.Server.State.{Server}
use gexcloud.Text.{Bytes, codes, str_eq}

-- A handle of pam_start, with the conversation function that it is given there.
abbrev pub IsStarted : Server → Type 0
IsStarted t = (t.pam.handle ≢ none) × (t.pam.conv ≡ store_conv) × (t.pam.authctxt_set ≡ true)

module _ (env : Env) where
  -- The handle that was there, which PAM says is for `user`.
  abbrev pub IsKept : Bytes → Server → Server → Type 0
  IsKept user s t =
      (s.pam.handle ≢ none)
      × (t.pam ≡ record s.pam { err = pam_success })
      × (str_eq user (env.pam_user t.history) ≡ true)

  abbrev pub Left : Bytes → Server → Bool → Server → Type 0
  Left user s true t = IsKept user s t ⊎ IsStarted t
  Left user s false t = t.pam.handle ≡ none

  abbrev Opens : Bool → Server → Type 0
  Opens true t = IsStarted t
  Opens false t = t.pam.handle ≡ none

  ended : {P : Server → Type 0} → Hoare P end_handle (λ _ t. t.pam.handle ≡ none)
  unfolding end_handle ◌>>=◌
  ended = record { after = λ s p a h. refl }

  failing : Hoare IsStarted (end_handle >> pure false) Opens
  failing = Hoare-bind (λ _ t. t.pam.handle ≡ none) ended λ x. Hoare-pure false (λ t e. e)

  -- An item other than the conversation function.
  set_item-IsStarted :
      (i : PamItem)
      → ((c : PamCode) (old : Conv) → registered env i c old ≡ old)
      → Hoare IsStarted (pam_set_item env i) (λ _. IsStarted)
  unfolding pam_set_item ◌>>=◌
  set_item-IsStarted i same = record { after = λ s (h, c, k) code r. (h, same _ _ ∙ c, k) }

  set_or_end-Opens :
      (i : PamItem) {rest : M Bool}
      → ((c : PamCode) (old : Conv) → registered env i c old ≡ old)
      → Hoare IsStarted rest Opens
      → Hoare IsStarted (set_item_or_end env i rest) Opens
  unfolding set_item_or_end
  set_or_end-Opens i same hr =
      Hoare-bind (λ _. IsStarted) (set_item-IsStarted i same)
        λ code.
          Hoare-bind (λ _. IsStarted) (Hoare-modify _ (λ s p. p))
            λ x. Hoare-if (is_success code) (λ e. hr) (λ e. failing)

  rhost_registers : (c : PamCode) (old : Conv) → registered env rhost_item c old ≡ old
  unfolding registered
  rhost_registers c old = refl

  tty_registers : (t : Bytes) (c : PamCode) (old : Conv) → registered env (tty_item t) c old ≡ old
  unfolding registered
  tty_registers t c old = refl

  first_items-Opens : Hoare IsStarted (set_first_items env) Opens
  first_items-Opens = set_or_end-Opens rhost_item rhost_registers (
      Hoare-if env.build.tty_kludge
        (λ e.
          set_or_end-Opens (tty_item (codes "ssh")) (tty_registers (codes "ssh"))
            (Hoare-pure true (λ s p. p)))
        (λ e. Hoare-pure true (λ s p. p)))

  open-Opens : (user : Bytes) → Hoare (λ _. Unit {0}) (open_handle env user) Opens
  unfolding open_handle
  open-Opens user =
      Hoare-bind (λ _ _. Unit {0}) (record { after = λ s p a h. tt })
        λ code.
          Hoare-bind (λ _ _. Unit {0}) (record { after = λ s p a h. tt })
            λ name.
              Hoare-bind (λ _. IsStarted) (Hoare-modify _ (λ s p. ((λ e. cc), refl, refl)))
                λ x.
                  Hoare-bind (λ _. IsStarted) (Hoare-modify _ (λ s p. p))
                    λ y. Hoare-if (is_success code) (λ e. first_items-Opens) (λ e. failing)

  both_true : (a b : Bool) → (a && b) ≡ true → (a ≡ true) × (b ≡ true)
  both_true a b h = ground arith

  same-IsKept :
      (user : Bytes) (s : Server)
      → s.pam.handle ≢ none
      → (same_user env user s).0 ≡ ok true
      → IsKept user s (same_user env user s).1
  unfolding same_user ◌>>=◌
  same-IsKept user s ne h =
      let (good, same) = both_true _ _ (ok_injective h) in
      (ne, ap (λ c. record s.pam { err = c }) (is_success-only _ good), same)

  weaken : (user : Bytes) (s t : Server) (b : Bool) → Opens b t → Left user s b t
  weaken user s t true h = inr h
  weaken user s t false h = h

  open-Left :
      (user : Bytes) (s : Server) → Hoare (λ _. Unit {0}) (open_handle env user) (Left user s)
  open-Left user s = record {
    after = λ t p b h. weaken user s _ b ((open-Opens user).after t tt b h);
  }

  reopen-Left :
      (user : Bytes) (s : Server) (same : Bool)
      → Hoare
          (λ t. same ≡ true → IsKept user s t)
          (if same then pure true else (end_handle >> open_handle env user))
          (Left user s)
  reopen-Left user s true = Hoare-pure true (λ t k. inl (k refl))
  reopen-Left user s false =
      Hoare-bind (λ _ _. Unit {0}) (record { after = λ t p a h. tt }) λ x. open-Left user s

  some-none : {h : ℕ} → some h ≢ none
  some-none z = cc

  abbrev by_handle : Bytes → Option ℕ → M Bool
  by_handle user o = match_option o (open_handle env user) λ h. do
    same ← same_user env user
    if same then pure true else (end_handle >> open_handle env user)

  known_handle :
      (user : Bytes) (s : Server) {h : ℕ}
      → s.pam.handle ≡ some h
      → Hoare (λ t. t ≡ s) (same_user env user) (λ same t. same ≡ true → IsKept user s t)
  known_handle user s e = record {
    after = λ t q same r k.
        let here = ap (λ x. x.pam.handle) q ∙ e in
        subst (λ x. IsKept user x (same_user env user t).1) q
          (same-IsKept user t (λ z. some-none (sym here ∙ z)) (r ∙ ap ok k));
  }

  from_handle :
      (user : Bytes) (s : Server) (o : Option ℕ) (b : Bool)
      → s.pam.handle ≡ o
      → (by_handle user o s).0 ≡ ok b
      → Left user s b (by_handle user o s).1
  unfolding match_option
  from_handle user s none b e r = (open-Left user s).after s tt b r
  from_handle user s (some h) b e r =
      (Hoare-bind (λ same t. same ≡ true → IsKept user s t) (known_handle user s e)
          (reopen-Left user s)).after
        s refl b r

  pub sshpam_init-Left :
      (s : Server) (user : Bytes) (b : Bool)
      → s.auth.user ≡ some user
      → (sshpam_init env s).0 ≡ ok b
      → Left user s b (sshpam_init env s).1
  unfolding sshpam_init gets
  sshpam_init-Left s user b e h =
      let run =
        >>=-eq (gets (λ s. s.auth.user)) _ s refl
        ∙ (>>=-eq (or_halt s.auth.user undefined) _ s (or_halt-some user undefined s e)
            ∙ >>=-eq (gets (λ s. s.pam.handle)) (by_handle user) s refl) in
      subst (λ (r : Result Bool × Server). Left user s b r.1) (sym run)
        (from_handle user s s.pam.handle b refl (ap (λ r. r.0) (sym run) ∙ h))
