-- ===== src/Ssh1/Round/Settles.antt =====
-- Which methods of protocol 1 postpone.
use mathlib.Core.Bool.{false≢true}
use gexcloud.Base.{
  Bool, List, Option, [], ap, false, if◌then◌else◌, inl, inr, none, refl, some, subst, sym, true, ℕ,
  ◌==◌, ◌∙◌, ◌∷◌, ◌≡◌, ◌≢◌, ◌⊎◌,
}
use gexcloud.Server.Env.{Env}
use gexcloud.Server.Event.{Authenticated, postponed, result}
use gexcloud.Server.Laws.{>>=-ok, pure-ok}
use gexcloud.Server.Monad.{M, Stop, halt, match_option, ok, pure, ◌>>=◌}
use gexcloud.Server.State.{Server}
use gexcloud.Ssh1.Methods.{
  AuthMethod1, Method, auth1_methods, auth1_process_password, auth1_process_rhosts_rsa,
  auth1_process_rsa, auth1_process_tis_challenge, auth1_process_tis_response, find_type,
  lookup_authmethod1, process_password, process_rhosts_rsa, process_rsa, process_tis_challenge,
  process_tis_response, run_method, without_info,
}
use gexcloud.Ssh1.Round.{
  Verdict, accepted, auth_round, judge_method, limit_or_try, rejected, reply_round, try_method,
  try_type, waiting,
}
use gexcloud.Text.{Bytes}

-- What an action returns, if it does.
pub record Returns {A : Type 0} (P : A → Type 0) (m : M A) : Type 0 where
  pub value : (s : Server) (a : A) → (m s).0 ≡ ok a → P a

module _ {A : Type 0} {P : A → Type 0} where
  Returns-pure : (a : A) → P a → Returns P (pure a)
  Returns-pure a p = record { value = λ s b h. subst P (pure-ok _ b s h) p }

  Returns-halt : (e : Stop) → Returns P (halt e)
  unfolding halt
  Returns-halt e = record { value = λ s b h. cc }

  Returns-bind :
      {B : Type 0} (m : M B) (f : B → M A) → ((b : B) → Returns P (f b)) → Returns P (m >>= f)
  Returns-bind m f hf = record {
    value = λ s a h. let (b, e, h1) = >>=-ok m f s h in (hf b).value (m s).1 a h1;
  }

  Returns-then :
      {B : Type 0} {Q : B → Type 0} {m : M B} {f : B → M A}
      → Returns Q m
      → ((b : B) → Q b → Returns P (f b))
      → Returns P (m >>= f)
  Returns-then {m} {f} hm hf = record {
    value = λ s a h. let (b, e, h1) = >>=-ok m f s h in (hf b (hm.value s b e)).value (m s).1 a h1;
  }

  Returns-if : (b : Bool) {m n : M A} → Returns P m → Returns P n → Returns P (if b then m else n)
  Returns-if true hm hn = hm
  Returns-if false hm hn = hn

  Returns-match :
      {B : Type 0} (o : Option B) {m : M A} {k : B → M A}
      → Returns P m
      → ((b : B) → Returns P (k b))
      → Returns P (match_option o m k)
  unfolding match_option
  Returns-match none hm hk = hm
  Returns-match (some b) hm hk = hk b

abbrev Settled : Authenticated × Bytes → Type 0
Settled o = o.0 ≢ postponed

abbrev pub Final : Verdict → Type 0
Final v = v ≢ waiting

result_settled : (n : ℕ) → result n ≢ postponed
result_settled n = λ e. cc

Final-accepted : Final accepted
Final-accepted = λ e. cc

Final-rejected : Final rejected
Final-rejected = λ e. cc

-- The only method that postpones is that of the challenge, which challenge-response
-- authentication enables.
abbrev Postpones : AuthMethod1 → Type 0
Postpones m =
    m.method ≡ process_tis_challenge → m.enabled ≡ λ o. o.challenge_response_authentication

first_or_later :
    (b : Bool) {m x : AuthMethod1} {later : Option AuthMethod1}
    → (if b then some m else later) ≡ some x
    → (m ≡ x) ⊎ (later ≡ some x)
first_or_later true h = inl (cc)
first_or_later false h = inr h

abbrev AllPostpone : List AuthMethod1 → Type 0
AllPostpone [] = Unit {0}
AllPostpone (m ∷ ms) = Postpones m × AllPostpone ms

find-Postpones :
    (ms : List AuthMethod1) (type : ℕ) (m : AuthMethod1)
    → AllPostpone ms
    → find_type ms type ≡ some m
    → Postpones m
unfolding find_type
find-Postpones [] type m all h = cc
find-Postpones (x ∷ ms) type m (p, all) h = elim (first_or_later (x.type == type) h) [
  | inl e ↦ subst Postpones e p
  | inr later ↦ find-Postpones ms type m all later
]

table-Postpones : AllPostpone auth1_methods
unfolding auth1_methods
table-Postpones = ((λ e. cc), ((λ e. cc), ((λ e. cc), ((λ e. refl), ((λ e. cc), tt)))))

module _ (env : Env) where
  without_info-Settled :
      (m : M Authenticated) → Returns (λ a. a ≢ postponed) m → Returns Settled (without_info env m)
  without_info-Settled m h = Returns-then h (λ a p. Returns-pure (a, []) p)

  run_method-Settled : (m : Method) → m ≢ process_tis_challenge → Returns Settled (run_method env m)
  unfolding run_method auth1_process_password auth1_process_rsa auth1_process_rhosts_rsa
      auth1_process_tis_challenge auth1_process_tis_response
  run_method-Settled process_password ne =
      search (without_info-Settled, Returns-bind, Returns-pure, result_settled) depth 10
  run_method-Settled process_rsa ne =
      search (without_info-Settled, Returns-bind, Returns-pure, result_settled) depth 12
  run_method-Settled process_rhosts_rsa ne =
      search (Returns-bind, Returns-pure, result_settled) depth 20
  run_method-Settled process_tis_challenge ne = absurd (ne refl)
  run_method-Settled process_tis_response ne =
      search (without_info-Settled, Returns-bind, Returns-pure, result_settled) depth 10

  reply-Final : (type n : ℕ) (info : Bytes) → Returns Final (reply_round env type n info)
  unfolding reply_round
  reply-Final type n info =
      search (Returns-bind, Returns-pure, Returns-if, Returns-halt, Final-accepted, Final-rejected)
        depth 12

  judge-Final :
      (type : ℕ) (name : Bytes) (o : Authenticated × Bytes)
      → Settled o
      → Returns Final (judge_method env type name o)
  unfolding judge_method
  judge-Final type name (postponed, info) ne = absurd (ne refl)
  judge-Final type name (result n, info) ne = search (Returns-bind, reply-Final)

  tried-Final :
      (enabled : Bool) (type : ℕ) (meth : AuthMethod1)
      → (enabled ≡ true → meth.method ≢ process_tis_challenge)
      → Returns Final (
          if enabled
          then (do outcome ← run_method env meth.method; judge_method env type meth.name outcome)
          else reply_round env type 0 [])
  tried-Final false type meth ne = reply-Final type 0 []
  tried-Final true type meth ne =
      Returns-then (run_method-Settled meth.method (ne refl)) (judge-Final type meth.name)

  module _ (off : env.options.challenge_response_authentication ≡ false) where
    method-Final :
        (type : ℕ) (meth : AuthMethod1)
        → lookup_authmethod1 type ≡ some meth
        → Returns Final (try_method env type meth)
    unfolding try_method lookup_authmethod1
    method-Final type meth h = tried-Final (meth.enabled env.options) type meth λ on e. false≢true (
        sym off
        ∙ sym (ap (λ f. f env.options) (find-Postpones auth1_methods type meth table-Postpones h e))
        ∙ on)

    type-Final :
        (type : ℕ) (o : Option AuthMethod1)
        → lookup_authmethod1 type ≡ o
        → Returns Final (match_option o (reply_round env type 0 []) (try_method env type))
    unfolding match_option
    type-Final type none h = reply-Final type 0 []
    type-Final type (some meth) h = method-Final type meth h

    pub round-Final : (prev type : ℕ) → Returns Final (auth_round env prev type)
    unfolding auth_round limit_or_try try_type
    round-Final prev type = Returns-bind _ _ λ x. Returns-bind _ _ λ y. Returns-bind _ _ λ failures.
        Returns-if _ (reply-Final type 0 []) (type-Final type (lookup_authmethod1 type) refl)
