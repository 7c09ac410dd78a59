-- ===== src/Ssh2/Methods/Offer.antt =====
-- The list of methods that a client is offered, and the lookup of what it asks for.
use mathlib.Core.List.{append_assoc}
use gexcloud.Base.{
  Bool, Bool-cases, List, [], arith, if◌then◌else◌, inl, inr, none, not, refl, some, subst, sym,
  true, ℕ, ◌&&◌, ◌++◌, ◌||◌, ◌∙◌, ◌∷◌, ◌≡◌, ◌≢◌, ◌⊎◌,
}
use gexcloud.Server.Env.{Env}
use gexcloud.Server.Event.{History, MethodId}
use gexcloud.Ssh2.Methods.{
  add_method, authmethod_lookup, authmethods, authmethods_get, collect_methods, find_method,
  is_enabled,
}
use gexcloud.Text.{Bytes, codes, str_eq}
use gexcloud.Text.Laws.{str_eq_refl, str_eq_sound}

-- Names with a comma between each two.
abbrev pub join : List Bytes → Bytes
join [] = []
join (x ∷ []) = x
join (x ∷ y ∷ r) = x ++ b',' ∷ join (y ∷ r)

module _ (env : Env) where
  -- Every method but "none" that is enabled.
  abbrev pub offered : History → List MethodId → List Bytes
  offered h [] = []
  offered h (m ∷ ms) =
      if str_eq (env.method_name m) (codes "none") || not (is_enabled env h m)
      then offered h ms
      else env.method_name m ∷ offered h ms

  abbrev pub HaveNames : Type 0
  HaveNames = (m : MethodId) → env.method_name m ≢ []

  add_method-cons : (c : ℕ) (b name : Bytes) → add_method env (c ∷ b) name ≡ c ∷ b ++ b',' ∷ name
  unfolding add_method
  add_method-cons c b name = refl

  pub join-longer :
      (b name : Bytes) (r : List Bytes)
      → join ((b ++ b',' ∷ name) ∷ r) ≡ b ++ b',' ∷ join (name ∷ r)
  join-longer b name [] = refl
  join-longer b name (y ∷ r) = append_assoc b (b',' ∷ name) (b',' ∷ join (y ∷ r))

  collect-join :
      (h : History) (ms : List MethodId) (c : ℕ) (b : Bytes)
      → collect_methods env h ms (c ∷ b) ≡ join ((c ∷ b) ∷ offered h ms)
  unfolding collect_methods
  collect-join h [] c b = refl
  collect-join h (m ∷ ms) c b =
      elim (Bool-cases (str_eq (env.method_name m) (codes "none") || not (is_enabled env h m))) [
        | inl out ↦ rw out (collect-join h ms c b)
        | inr kept ↦
            rw (kept, add_method-cons c b (env.method_name m))
              (collect-join h ms c (b ++ b',' ∷ env.method_name m)
                ∙ join-longer (c ∷ b) (env.method_name m) (offered h ms))
      ]

  collect_first :
      (h : History) (ms : List MethodId) (name : Bytes)
      → name ≢ []
      → collect_methods env h ms (add_method env [] name) ≡ join (name ∷ offered h ms)
  unfolding add_method
  collect_first h ms [] ne = absurd (ne refl)
  collect_first h ms (c ∷ name) ne = collect-join h ms c name

  collect_from_empty :
      (h : History) (ms : List MethodId)
      → HaveNames
      → collect_methods env h ms [] ≡ join (offered h ms)
  unfolding collect_methods
  collect_from_empty h [] names = refl
  collect_from_empty h (m ∷ ms) names =
      elim (Bool-cases (str_eq (env.method_name m) (codes "none") || not (is_enabled env h m))) [
        | inl out ↦ rw out (collect_from_empty h ms names)
        | inr kept ↦ rw kept (collect_first h ms (env.method_name m) (names m))
      ]

  -- If no method has the empty name, authmethods_get gives the names of the enabled methods but
  -- "none", in the order of the table, joined by commas.
  pub authmethods_get-join :
      (h : History) → HaveNames → authmethods_get env h ≡ join (offered h (authmethods env))
  unfolding authmethods_get
  authmethods_get-join h names = collect_from_empty h (authmethods env) names

  abbrev pub In : MethodId → List MethodId → Type 0
  In m [] = ⊥
  In m (x ∷ xs) = (x ≡ m) ⊎ In m xs

  and_left : (a b : Bool) → (a && b) ≡ true → a ≡ true
  and_left a b h = ground arith

  and_right : (a b : Bool) → (a && b) ≡ true → b ≡ true
  and_right a b h = ground arith

  some_injective : {a b : MethodId} → some a ≡ some b → a ≡ b
  some_injective e = cc

  find_method_sound :
      (h : History) (name : Bytes) (ms : List MethodId) (m : MethodId)
      → find_method env h name ms ≡ some m
      → In m ms × (is_enabled env h m ≡ true) × (env.method_name m ≡ name)
  unfolding find_method
  find_method_sound h name [] m e = cc
  find_method_sound h name (x ∷ ms) m e =
      elim (Bool-cases (is_enabled env h x && str_eq name (env.method_name x))) [
        | inl hit ↦
            let same : x ≡ m = some_injective (rw (hit, find_method) at e) in
            subst (λ k. In k (x ∷ ms) × (is_enabled env h k ≡ true) × (env.method_name k ≡ name))
              same (inl refl, and_left _ _ hit, sym (str_eq_sound name _ (and_right _ _ hit)))
        | inr miss ↦
            let (i, on, n) = find_method_sound h name ms m (rw (miss, find_method) at e) in
            (inr i, on, n)
      ]

  hit_first :
      (h : History) (m x : MethodId) (ms : List MethodId)
      → x ≡ m
      → is_enabled env h m ≡ true
      → find_method env h (env.method_name m) (x ∷ ms) ≢ none
  unfolding find_method
  hit_first h m x ms same on = rw (same, on, str_eq_refl (env.method_name m)) (λ e. cc)

  find_method_complete :
      (h : History) (m : MethodId) (ms : List MethodId)
      → In m ms
      → is_enabled env h m ≡ true
      → find_method env h (env.method_name m) ms ≢ none
  unfolding find_method
  find_method_complete h m [] i on e = i
  find_method_complete h m (x ∷ ms) (inl same) on e = hit_first h m x ms same on e
  find_method_complete h m (x ∷ ms) (inr i) on e = ground (arith, find_method_complete h m ms i on)

  -- What authmethod_lookup finds is a method of the table that is enabled and bears the name
  -- asked for; and for each method of the table that is enabled, its name is found.
  pub authmethod_lookup_iff :
      (h : History)
      → ((name : Bytes) (m : MethodId)
          → authmethod_lookup env h name ≡ some m
          → In m (authmethods env) × (is_enabled env h m ≡ true) × (env.method_name m ≡ name))
        × ((m : MethodId)
            → In m (authmethods env)
            → is_enabled env h m ≡ true
            → authmethod_lookup env h (env.method_name m) ≢ none)
  unfolding authmethod_lookup
  authmethod_lookup_iff h = (
    λ name m. find_method_sound h name (authmethods env) m,
    λ m. find_method_complete h m (authmethods env),
  )
