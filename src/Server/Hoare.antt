-- ===== src/Server/Hoare.antt =====
-- What holds after an action that ended with a value, given what held before.
use gexcloud.Base.{Bool, false, if◌then◌else◌, refl, subst, sym, true, ◌≡◌}
use gexcloud.Server.Frame.{Within}
use gexcloud.Server.Laws.{>>=-ok, >>=-run, ok_injective}
use gexcloud.Server.Monad.{M, gets, modify, ok, pure, ◌>>=◌}
use gexcloud.Server.State.{Server}

-- From `P`, `m` ends, if it does with a value, in `Q` of that value.
pub record Hoare {A : Type 0} (P : Server → Type 0) (m : M A) (Q : A → Server → Type 0)
    : Type 0 where
  pub after : (s : Server) → P s → (a : A) → (m s).0 ≡ ok a → Q a (m s).1

pub Hoare-bind :
    {A B : Type 0} {P : Server → Type 0} {m : M A} {f : A → M B} {R : B → Server → Type 0}
    (Q : A → Server → Type 0)
    → Hoare P m Q
    → ((a : A) → Hoare (Q a) (f a) R)
    → Hoare P (m >>= f) R
Hoare-bind {m} {f} {R} Q hm hf = record {
  after = λ s p b h.
      let (a, e, h1) = >>=-ok m f s h in
      subst (λ r. R b r.1) (sym (>>=-run m f s a e)) ((hf a).after (m s).1 (hm.after s p a e) b h1);
}

pub Hoare-frame :
    {A : Type 0} {m : M A} {R : Server → Server → Type 0} {P : Server → Type 0}
    → Within R m
    → ((s t : Server) → R s t → P s → P t)
    → Hoare P m (λ _. P)
Hoare-frame {m} w k = record { after = λ s p a h. k s (m s).1 (w.at s) p }

pub Hoare-if :
    {A : Type 0} {P : Server → Type 0} {Q : A → Server → Type 0} {m n : M A} (b : Bool)
    → (b ≡ true → Hoare P m Q)
    → (b ≡ false → Hoare P n Q)
    → Hoare P (if b then m else n) Q
Hoare-if true hm hn = hm refl
Hoare-if false hm hn = hn refl

pub Hoare-gets :
    {A : Type 0} {P : Server → Type 0} (g : Server → A) → Hoare P (gets g) (λ a s. (g s ≡ a) × P s)
unfolding gets
Hoare-gets g = record { after = λ s p a h. (ok_injective h, p) }

pub Hoare-modify :
    {P : Server → Type 0} {Q : Server → Type 0} (g : Server → Server)
    → ((s : Server) → P s → Q (g s))
    → Hoare P (modify g) (λ _. Q)
unfolding modify
Hoare-modify g k = record { after = λ s p a h. k s p }

pub Hoare-pure :
    {A : Type 0} {P : Server → Type 0} {Q : A → Server → Type 0} (a : A)
    → ((s : Server) → P s → Q a s)
    → Hoare P (pure a) Q
unfolding pure
Hoare-pure {Q} a k = record { after = λ s p b h. subst (λ x. Q x s) (ok_injective h) (k s p) }
