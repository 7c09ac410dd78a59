-- ===== src/Pam/Device/Marks.antt =====
-- The mark of success on a pam_ctxt: which calls leave it off.
use gexcloud.Base.{
  Bool-cases, Option, ap, get_elem?, get_elem?-set_only, get_elem?-set_other, inl, inr, none, set,
  some, subst, sym, ℕ, ◌==◌, ◌∙◌, ◌≡◌, ◌≢◌,
}
use gexcloud.Pam.Context.{store_ctxt}
use gexcloud.Pam.Process.Owned.{SameContexts}
use gexcloud.Pam.Process.Writes.{other_index, same_index, some_injective, written}
use gexcloud.Server.Frame.{IsFrame, Within}
use gexcloud.Server.Hoare.{Hoare, Hoare-frame}
use gexcloud.Server.Monad.{M, modify}
use gexcloud.Server.State.{PamCtxt, Server, running, succeeded}

-- pam_done of a live object says that PAM has succeeded.
pub record HasSucceeded (p : ℕ) (s : Server) : Type 0 where
  pub ctxt : PamCtxt
  pub alive : get_elem? s.pam.contexts p ≡ some (some ctxt)
  pub marked : ctxt.pam_done ≡ succeeded

-- No object has got the mark.
pub record NoNew (s t : Server) : Type 0 where
  pub before : (p : ℕ) → HasSucceeded p t → HasSucceeded p s

pub NoNew-IsFrame : IsFrame NoNew
NoNew-IsFrame = record {
  here = λ s. record { before = λ p x. x };
  compose = λ s t u h k. record { before = λ p x. h.before p (k.before p x) };
  longer = λ s h. record {
    before = λ p x. record { ctxt = x.ctxt; alive = x.alive; marked = x.marked };
  };
}

pub SameContexts-NoNew : (s t : Server) → SameContexts s t → NoNew s t
SameContexts-NoNew s t k = record {
  before = λ p x. record {
    ctxt = x.ctxt;
    alive = ap (λ cs. get_elem? cs p) (sym k.contexts) ∙ x.alive;
    marked = x.marked;
  };
}

pub unmoved : {A : Type 0} {m : M A} → Within SameContexts m → Within NoNew m
unmoved w = record { at = λ s. SameContexts-NoNew s _ (w.at s) }

-- A write marks nothing new, if it writes no mark where there was none.
pub written-NoNew :
    (p : ℕ) (v : Option PamCtxt) (s : Server)
    → ((c : PamCtxt) → v ≡ some c → c.pam_done ≡ succeeded → HasSucceeded p s)
    → NoNew s (written p v s)
written-NoNew p v s h = record {
  before = λ q x. elim (Bool-cases (p == q)) [
    | inl same ↦
        let e = same_index p q same in
        subst (λ i. HasSucceeded i s) e
          (h x.ctxt
            (get_elem?-set_only s.pam.contexts p v
              (ap (get_elem? (set s.pam.contexts p v)) e ∙ x.alive))
            x.marked)
    | inr other ↦ record {
      ctxt = x.ctxt;
      alive = sym (get_elem?-set_other s.pam.contexts p q v (other_index p q other)) ∙ x.alive;
      marked = x.marked;
    }
  ];
}

not_marked : (c d : PamCtxt) → some c ≡ some d → c.pam_done ≢ succeeded → d.pam_done ≢ succeeded
not_marked c d e ne m = ne (ap (λ (x : PamCtxt). x.pam_done) (some_injective e) ∙ m)

pub store-NoNew :
    (p : ℕ) (c : PamCtxt) → c.pam_done ≢ succeeded → Within NoNew (store_ctxt p (some c))
unfolding store_ctxt modify
store-NoNew p c ne = record {
  at = λ s. written-NoNew p (some c) s (λ d e m. absurd (not_marked c d e ne m));
}

pub free-NoNew : (p : ℕ) → Within NoNew (store_ctxt p none)
unfolding store_ctxt modify
free-NoNew p = record { at = λ s. written-NoNew p none s (λ d e m. cc) }

pub running_apart : running ≢ succeeded
running_apart e = cc

-- Between the calls of a function: nothing new is marked since `s`, and `p` is not marked.
pub record Unmarked (s : Server) (p : ℕ) (t : Server) : Type 0 where
  pub no_new : NoNew s t
  pub not_yet : HasSucceeded p t → ⊥

pub Unmarked-Within :
    {A : Type 0} {m : M A} {s : Server} {p : ℕ}
    → Within NoNew m
    → Hoare (Unmarked s p) m (λ _. Unmarked s p)
Unmarked-Within {s} {p} w = Hoare-frame w (λ t u k h. record {
  no_new = NoNew-IsFrame.compose s t u h.no_new k;
  not_yet = λ x. h.not_yet (k.before p x);
})
