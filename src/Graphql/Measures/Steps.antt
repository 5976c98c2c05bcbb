-- ===== src/Graphql/Measures/Steps.antt =====
-- What each step of the walk in src/graphql.rs adds to the statistics.
use ferroada.Prelude.{
  ℕ, zero, suc, ◌+◌, ◌-◌, ◌*◌, ◌^◌, ◌≤◌, ◌<◌, ltb, max, List, [], ◌∷◌, Bool, true, false, ◌||◌, ok,
  ◌≡◌, ap, ◌∙◌, arith, Bool-cases, inl, inr, if◌then◌else◌,
}
use ferroada.Text.{Text, text_eq}
use ferroada.Graphql.Document.{Arguments, ℤ}
use ferroada.Graphql.Walk.{
  Stats, WalkEnv, enter, multiply, count_field, list_multiplier, best_of, is_sized, positive,
  value_of,
}
use ferroada.Graphql.Measures.{Measure, nothing, both, field_measure, within, Adds, Entered}

grows_if : (b : Bool) (best n : ℕ) → best ≤ (if b then max best n else best)
grows_if true best n = omega arith
grows_if false best n = omega arith

more : (k times : ℕ) → k + k * times ≡ suc times * k
more k times = grind arith

best_of-le :
    (variables : List (Text × ℤ)) (default_list : ℕ) (args : Arguments) (best : ℕ)
    → best ≤ best_of variables default_list args best
unfolding best_of
best_of-le variables default_list [] best = omega arith
best_of-le variables default_list ((name, value) ∷ args) best =
    let next : ℕ =
      if is_sized name then max best (positive (value_of variables default_list value)) else best in
    let grows : best ≤ next =
      grows_if (is_sized name) best (positive (value_of variables default_list value)) in
    omega (arith, grows, best_of-le variables default_list args next)

list_multiplier-pos :
    (args : Arguments) (variables : List (Text × ℤ)) (default_list : ℕ)
    → 1 ≤ list_multiplier args variables default_list
unfolding list_multiplier
list_multiplier-pos args variables default_list = best_of-le variables default_list args 1

times_more : (k times : ℕ) → 1 ≤ times → k + k * (times - 1) ≡ times * k
times_more k zero h = absurd (omega arith)
times_more k (suc times) h =
    let e : suc times - 1 ≡ times = omega arith in ap (λ (t : ℕ). k + k * t) e ∙ more k times

module _ (env : WalkEnv) (small : env.complexity_cap < 2 ^ 64 - 1) where
  pub count_field-Adds :
      (alias : Bool) (name : Text) (d : ℕ) (s t : Stats)
      → Entered env d s
      → count_field env alias name s ≡ ok t
      → Adds env (field_measure alias name) d s t
  unfolding count_field
  count_field-Adds alias name d s t h e = record {
    cost = ground (arith, e);
    depth = ground (arith, e);
    aliases = ground (arith, e);
    introspection = ground (arith, e);
    cheap = ground (arith, e);
    shallow = ground (arith, e);
  }

  pub enter-Entered :
      (d : ℕ) (s t : Stats) → s.aliases < 2 ^ 32 → enter env d s ≡ ok t → Entered env d t
  unfolding enter
  enter-Entered d s t h e = record {
    reached = ground (arith, e);
    allowed = ground (arith, e);
    counted = ground (arith, e);
  }

  -- Entering counts nothing.
  pub enter-same :
      (d : ℕ) (s t : Stats) → enter env d s ≡ ok t → t ≡ record s { depth = max s.depth d }
  unfolding enter
  enter-same d s t e = ground (arith, e)

  pub Adds-both :
      (m n : Measure) (d : ℕ) (s t u : Stats)
      → Adds env m d s t
      → Adds env n d t u
      → Adds env (both m n) d s u
  Adds-both m n d s t u a b = record {
    cost = ground arith;
    depth = ground arith;
    aliases = ground arith;
    introspection = ground arith;
    cheap = λ c. b.cheap (a.cheap c);
    shallow = ground arith;
  }

  pub Adds-Entered :
      (m : Measure) (d : ℕ) (s t : Stats) → Entered env d s → Adds env m d s t → Entered env d t
  Adds-Entered m d s t h a = record {
    reached = ground arith;
    allowed = h.allowed;
    counted = ground arith;
  }

  multiply-cost :
      (args : Arguments) (before k : ℕ) (s t : Stats)
      → s.complexity ≡ before + k
      → multiply env args before s ≡ ok t
      → t.complexity ≡ before + list_multiplier args env.variables env.default_list * k
  unfolding multiply
  multiply-cost args before k s t c e =
      let times : ℕ = list_multiplier args env.variables env.default_list in
      let pos = list_multiplier-pos args env.variables env.default_list in
      let own : s.complexity - before ≡ k = omega arith in
      let sum = times_more k times pos in
      elim (Bool-cases (ltb 1 times)) [
        | inl many ↦ ground (arith, e, many, ap (λ (x : ℕ). x * (times - 1)) own, sum, c, small)
        | inr few ↦
            let once : times ≡ 1 = ground (arith, pos, few) in
            let single : 1 * k ≡ k = omega arith in
            ground (arith, e, few, ap (λ (x : ℕ). x * k) once, single, c)
      ]

  multiply-rest :
      (args : Arguments) (before : ℕ) (s t : Stats)
      → multiply env args before s ≡ ok t
      → (t.depth ≡ s.depth)
        × (t.aliases ≡ s.aliases)
        × (t.introspection ≡ s.introspection)
        × (s.complexity ≤ env.complexity_cap → t.complexity ≤ env.complexity_cap)
  unfolding multiply
  multiply-rest args before s t e =
      (ground (arith, e), ground (arith, e), ground (arith, e), ground (arith, e))

  -- A selection and what its field's arguments make of it.
  pub parent-Adds :
      (args : Arguments) (m : Measure) (d : ℕ) (s₁ s₂ s₃ t : Stats)
      → s₂ ≡ record s₁ { depth = max s₁.depth (suc d) }
      → Entered env d s₁
      → Adds env m (suc d) s₂ s₃
      → multiply env args s₁.complexity s₃ ≡ ok t
      → Adds env (within (list_multiplier args env.variables env.default_list) m) d s₁ t
  parent-Adds args m d s₁ s₂ s₃ t same h a e =
      let c : s₂.complexity ≡ s₁.complexity = ap (λ s. s.complexity) same in
      let rest = multiply-rest args s₁.complexity s₃ t e in
      record {
        cost = multiply-cost args s₁.complexity m.cost s₃ t (omega (arith, c, a.cost)) e;
        depth = omega (arith, rest.0, a.depth, ap (λ s. s.depth) same);
        aliases = omega (arith, rest.1, a.aliases, ap (λ s. s.aliases) same);
        introspection = rest.2 ∙ a.introspection ∙ ap (λ s. s.introspection || m.introspects) same;
        cheap = λ k. rest.3 (a.cheap (omega (arith, c, k)));
        shallow = omega (arith, a.shallow);
      }

  -- What is added after entering a depth is added from before.
  pub enter-Adds :
      (m : Measure) (d : ℕ) (s t u : Stats)
      → enter env d s ≡ ok t
      → Adds env m d t u
      → Adds env m d s u
  enter-Adds m d s t u e a =
      let same = enter-same d s t e in
      record {
        cost = omega (arith, a.cost, ap (λ s. s.complexity) same);
        depth = omega (arith, a.depth, ap (λ s. s.depth) same);
        aliases = omega (arith, a.aliases, ap (λ s. s.aliases) same);
        introspection = a.introspection ∙ ap (λ s. s.introspection || m.introspects) same;
        cheap = λ k. a.cheap (omega (arith, k, ap (λ s. s.complexity) same));
        shallow = a.shallow;
      }

  pub Adds-nothing : (d : ℕ) (s : Stats) → Entered env d s → Adds env nothing d s s
  Adds-nothing d s h = record {
    cost = omega arith;
    depth = omega arith;
    aliases = omega arith;
    introspection = ground arith;
    cheap = λ k. k;
    shallow = omega arith;
  }
