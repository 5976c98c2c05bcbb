-- ===== src/RateLimit/Removal.antt =====
-- What `shrink_to_cap` of src/rate_limit.rs removes: keys that are in the map, each once.
use ferroada.Prelude.{
  ℕ, zero, suc, ◌+◌, ◌≡◌, List, [], ◌∷◌, length, true, false, arith, All, none, take, sym, ◌∙◌,
  Bool-cases, inl, inr, subst, All-take, if_both, ◌≢◌, refl, leb,
}
use ferroada.DashMap.{get, has, remove, len}
use ferroada.DashMap.Laws.{IsUnique, len-remove}
use ferroada.RateLimit.Key.{RateKey, key_eq, same_key, same_key_iff}
use ferroada.RateLimit.Eviction.{Requests, insert_by_time-All, sort_by_time-All}
use ferroada.RateLimit.{candidates, sort_by_time, insert_by_time, remove_all}

abbrev pub Entry : Type 0
Entry = RateKey × ℕ

abbrev pub IsIn : Requests → Entry → Type 0
IsIn m e = has m e.0 ≡ true

abbrev pub AreDistinct : List Entry → Type 0
AreDistinct [] = Unit
AreDistinct (e ∷ es) = All (λ f. same_key e.0 f.0 ≡ false) es × AreDistinct es

same_key_sym : (a b : RateKey) → same_key a b ≡ same_key b a
same_key_sym a b = ground (arith, same_key_iff a b, same_key_iff b a)

has-remove_other :
    (m : Requests) (k j : RateKey) → same_key k j ≡ false → has (remove m k) j ≡ has m j
unfolding has remove
has-remove_other [] k j h = refl
has-remove_other ((i, v) ∷ m) k j h =
    ground (arith, has-remove_other m k j, same_key_iff i k, same_key_iff i j, same_key_iff k j)

All-IsIn-remove :
    (m : Requests) (k : RateKey) (es : List Entry)
    → All (λ f. same_key k f.0 ≡ false) es
    → All (IsIn m) es
    → All (IsIn (remove m k)) es
All-IsIn-remove m k [] d h = tt
All-IsIn-remove m k (e ∷ es) d h =
    (has-remove_other m k e.0 d.0 ∙ h.0, All-IsIn-remove m k es d.1 h.1)

pub len-remove_all :
    (es : List Entry) (m : Requests)
    → AreDistinct es
    → All (IsIn m) es
    → len (remove_all es m) + length es ≡ len m
unfolding remove_all
len-remove_all [] m d h = omega arith
len-remove_all (e ∷ es) m d h =
    let rest = len-remove_all es (remove m e.0) d.1 (All-IsIn-remove m e.0 es d.0 h.1) in
    omega (arith, rest, len-remove m e.0 h.0)

-- Sorting and taking keep what the lemma above needs.
insert_by_time-AreDistinct :
    (e : Entry) (es : List Entry)
    → All (λ f. same_key e.0 f.0 ≡ false) es
    → AreDistinct es
    → AreDistinct (insert_by_time e es)
unfolding insert_by_time
insert_by_time-AreDistinct e [] d h = (tt, tt)
insert_by_time-AreDistinct e (f ∷ fs) d h =
    let rest = insert_by_time-AreDistinct e fs d.1 h.1 in
    let back : same_key f.0 e.0 ≡ false = same_key_sym f.0 e.0 ∙ d.0 in
    let others = insert_by_time-All (λ g. same_key f.0 g.0 ≡ false) e fs back h.0 in
    if_both AreDistinct (leb e.1 f.1) (λ _. (d, h)) (λ _. (others, rest))

pub sort_by_time-AreDistinct : (es : List Entry) → AreDistinct es → AreDistinct (sort_by_time es)
unfolding sort_by_time
sort_by_time-AreDistinct [] d = tt
sort_by_time-AreDistinct (e ∷ es) d =
    insert_by_time-AreDistinct e (sort_by_time es) (sort_by_time-All _ es d.0)
      (sort_by_time-AreDistinct es d.1)

pub take-AreDistinct : (n : ℕ) (es : List Entry) → AreDistinct es → AreDistinct (take n es)
take-AreDistinct zero es d = tt
take-AreDistinct (suc n) [] d = tt
take-AreDistinct (suc n) (e ∷ es) d = (All-take _ n es d.0, take-AreDistinct n es d.1)

length-insert_by_time :
    (e : Entry) (es : List Entry) → length (insert_by_time e es) ≡ suc (length es)
unfolding insert_by_time
length-insert_by_time e [] = refl
length-insert_by_time e (f ∷ fs) = ground (arith, length-insert_by_time e fs)

pub length-sort_by_time : (es : List Entry) → length (sort_by_time es) ≡ length es
unfolding sort_by_time
length-sort_by_time [] = refl
length-sort_by_time (e ∷ es) =
    omega (arith, length-insert_by_time e (sort_by_time es), length-sort_by_time es)

-- The candidates are in the map, each once.
IsIn-cons :
    (k : RateKey) (v : List ℕ) (m : Requests) (es : List Entry)
    → All (IsIn m) es
    → All (IsIn ((k, v) ∷ m)) es
unfolding has
IsIn-cons k v m [] h = tt
IsIn-cons k v m (e ∷ es) h = (ground (arith, h.0), IsIn-cons k v m es h.1)

pub candidates-IsIn : (keep : List RateKey) (m : Requests) → All (IsIn m) (candidates keep m)
unfolding candidates has
candidates-IsIn keep [] = tt
candidates-IsIn keep ((k, v) ∷ m) =
    let rest = IsIn-cons k v m (candidates keep m) (candidates-IsIn keep m) in
    let self = (same_key_iff k k).1 refl in ground (arith, rest, self)

has-some : (m : Requests) (k : RateKey) → has m k ≡ true → get m k ≢ none
unfolding has get
has-some [] k h g = cc
has-some ((j, v) ∷ m) k h g = ground (arith, h, g, has-some m k)

absent-others :
    (k : RateKey) (m : Requests) (es : List Entry)
    → get m k ≡ none
    → All (IsIn m) es
    → All (λ f. same_key k f.0 ≡ false) es
absent-others k m [] g h = tt
absent-others k m (e ∷ es) g h = (
  elim (Bool-cases (same_key k e.0)) [
    | inl same ↦
        let equal : e.0 ≡ k = sym ((same_key_iff k e.0).0 same) in
        let there : has m k ≡ true = subst (λ j. has m j ≡ true) equal h.0 in
        absurd (has-some m k there g)
    | inr other ↦ other
  ],
  absent-others k m es g h.1,
)

pub candidates-AreDistinct :
    (keep : List RateKey) (m : Requests) → IsUnique m → AreDistinct (candidates keep m)
unfolding candidates
candidates-AreDistinct keep [] u = tt
candidates-AreDistinct keep ((k, v) ∷ m) u =
    let others = absent-others k m (candidates keep m) u.0 (candidates-IsIn keep m) in
    let rest = candidates-AreDistinct keep m u.1 in ground (arith, others, rest)
