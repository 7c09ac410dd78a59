-- ===== src/Pam/Process/Writes.antt =====
-- Reads and writes of pam_ctxt objects, and cleanup_ctxt.
use gexcloud.Base.{
  Bool-cases, Option, ap, arith, false, get_elem?, get_elem?-set, get_elem?-set_other, inl, inr,
  none, refl, set, some, subst, sym, true, ℕ, ◌==◌, ◌∙◌, ◌≡◌, ◌≢◌,
}
use gexcloud.Pam.Account.{set_account_status}
use gexcloud.Pam.Context.{
  append_loginmsg, live, load_ctxt, modify_pam, set_err, sshpam_authctxt_pw, store_ctxt,
}
use gexcloud.Pam.Handle.{end_handle}
use gexcloud.Pam.Process.Owned.{HoldsThread, IsOwned, IsOwned-kept, SameContexts}
use gexcloud.Server.Frame.{Within}
use gexcloud.Server.Hoare.{Hoare, Hoare-bind, Hoare-frame}
use gexcloud.Server.Laws.{ok_injective}
use gexcloud.Server.Monad.{M, halt, modify, ok, or_halt, pure, ◌>>=◌}
use gexcloud.Server.Pam.{PamCode}
use gexcloud.Server.State.{Pam, PamCtxt, Server}
use gexcloud.Text.{Bytes}

pub modify-SameContexts :
    (f : Pam → Pam)
    → ((q : Pam) → ((f q).contexts ≡ q.contexts) × ((f q).cleanup_ctxt ≡ q.cleanup_ctxt))
    → Within SameContexts (modify_pam f)
unfolding modify
modify-SameContexts f h = record {
  at = λ s. let (c, k) = h s.pam in record { contexts = c; cleanup_ctxt = k };
}

pub set_err-SameContexts : (c : PamCode) → Within SameContexts (set_err c)
set_err-SameContexts c = modify-SameContexts _ (λ q. (refl, refl))

pub status-SameContexts : (n : ℕ) → Within SameContexts (set_account_status n)
status-SameContexts n = modify-SameContexts _ (λ q. (refl, refl))

pub append-SameContexts : (t : Bytes) → Within SameContexts (append_loginmsg t)
unfolding modify
append-SameContexts t = record { at = λ s. record { contexts = refl; cleanup_ctxt = refl } }

pub load-SameContexts : (p : ℕ) → Within SameContexts (load_ctxt p)
unfolding load_ctxt halt pure
load-SameContexts p = record { at = λ s. ground arith }

pub pw-SameContexts : Within SameContexts sshpam_authctxt_pw
unfolding sshpam_authctxt_pw halt pure or_halt
pw-SameContexts = record { at = λ s. ground arith }

pub end_handle-SameContexts : Within SameContexts end_handle
unfolding end_handle ◌>>=◌
end_handle-SameContexts = record { at = λ s. ground arith }

abbrev pub Stays : {A : Type 0} → M A → Type 0
Stays m = Hoare IsOwned m (λ _. IsOwned)

pub Stays-Within : {A : Type 0} {m : M A} → Within SameContexts m → Stays m
Stays-Within w = Hoare-frame w IsOwned-kept

pub Stays-bind :
    {A B : Type 0} {m : M A} {f : A → M B} → Stays m → ((a : A) → Stays (f a)) → Stays (m >>= f)
Stays-bind hm hf = Hoare-bind (λ _. IsOwned) hm hf

-- The object that a pointer was read through.
abbrev pub Reads : ℕ → PamCtxt → Server → Type 0
Reads p c s = IsOwned s × (get_elem? s.pam.contexts p ≡ some (some c))

pub load_from :
    (p : ℕ) (s : Server) (o : Option (Option PamCtxt)) (c : PamCtxt)
    → get_elem? s.pam.contexts p ≡ o
    → (live o s).0 ≡ ok c
    → o ≡ some (some c)
unfolding halt pure
load_from p s none c e h = cc
load_from p s (some none) c e h = cc
load_from p s (some (some d)) c e h = ap (λ x. some (some x)) (ok_injective h)

pub load-Reads : (p : ℕ) → Hoare IsOwned (load_ctxt p) (Reads p)
unfolding load_ctxt
load-Reads p = record {
  after = λ s own c h. (
    IsOwned-kept s _ ((load-SameContexts p).at s) own,
    ap (λ cs. get_elem? cs p) ((load-SameContexts p).at s).contexts
        ∙ load_from p s (get_elem? s.pam.contexts p) c refl h,
  );
}

pub same_index : (p q : ℕ) → ((p == q) ≡ true) → p ≡ q
same_index p q h = ground arith

pub other_index : (p q : ℕ) → ((p == q) ≡ false) → p ≢ q
other_index p q h = ground arith

abbrev pub written : ℕ → Option PamCtxt → Server → Server
written p v s = record s { pam = record s.pam { contexts = set s.pam.contexts p v } }

-- A write to another object.
pub written_elsewhere :
    (p q : ℕ) (v : Option PamCtxt) (s : Server)
    → p ≢ q
    → HoldsThread q s
    → HoldsThread q (written p v s)
written_elsewhere p q v s ne x = record {
  ctxt = x.ctxt;
  alive = get_elem?-set_other s.pam.contexts p q v ne ∙ x.alive;
  runs = x.runs;
}

pub some_injective : {A : Type 0} {a b : A} → some a ≡ some b → a ≡ b
some_injective h = cc

-- A write that leaves the thread in its place.
pub rewritten :
    (p : ℕ) (c d : PamCtxt) (s : Server)
    → d.pam_thread ≡ c.pam_thread
    → Reads p c s
    → IsOwned (written p (some d) s)
rewritten p c d s e (own, r) = record {
  held = λ q h.
      let x = own.held q h in
      elim (Bool-cases (p == q)) [
        | inl same ↦
            subst (λ i. HoldsThread i (written p (some d) s)) (same_index p q same)
              (record {
                ctxt = d;
                alive = get_elem?-set s.pam.contexts p (some d) r;
                runs = λ z. x.runs (
                    ap (λ (c : PamCtxt). c.pam_thread)
                      (some_injective (
                        some_injective (
                          sym x.alive
                          ∙ ap (get_elem? s.pam.contexts) (sym (same_index p q same))
                          ∙ r)))
                    ∙ sym e
                    ∙ z);
              })
        | inr other ↦ written_elsewhere p q (some d) s (other_index p q other) x
      ];
}

-- The object of the current attempt while it is set up: cleanup_ctxt does not point to it.
pub record Apart (p : ℕ) (s : Server) : Type 0 where
  pub own : IsOwned s
  pub apart : s.pam.cleanup_ctxt ≢ some p

pub write-Apart : (p : ℕ) (v : Option PamCtxt) → Hoare (Apart p) (store_ctxt p v) (λ _. Apart p)
unfolding store_ctxt modify
write-Apart p v = record {
  after = λ s a x h. record {
    own = record {
      held = λ q k. written_elsewhere p q v s (λ e. a.apart (k ∙ ap some (sym e))) (a.own.held q k);
    };
    apart = a.apart;
  };
}

pub Apart-kept : (p : ℕ) (s t : Server) → SameContexts s t → Apart p s → Apart p t
Apart-kept p s t k a = record {
  own = IsOwned-kept s t k a.own;
  apart = λ e. a.apart (sym k.cleanup_ctxt ∙ e);
}
