-- ===== src/Window/Laws.antt =====
-- The queue that a limiter keeps counts what the whole history counts.
use ferroada.Prelude.{
  ℕ, ◌+◌, ◌≡◌, ◌≤◌, List, [], ◌∷◌, ◌++◌, length, All, arith, All-append, ◌-◌, refl, ◌<◌,
}
use ferroada.Window.{drop_expired, retain_live, recent}

pub recent-append :
    (window t : ℕ) (xs ys : List ℕ)
    → recent window t (xs ++ ys) ≡ recent window t xs + recent window t ys
unfolding recent
recent-append window t [] ys = omega arith
recent-append window t (x ∷ xs) ys = ground (arith, recent-append window t xs ys)

pub recent-le : (window t : ℕ) (xs : List ℕ) → recent window t xs ≤ length xs
unfolding recent
recent-le window t [] = omega arith
recent-le window t (x ∷ xs) = ground (arith, recent-le window t xs)

-- What is dropped at `now` is in no later window either.
pub recent-drop_expired :
    (window now t : ℕ) (xs : List ℕ)
    → now ≤ t
    → recent window t (drop_expired window now xs) ≡ recent window t xs
unfolding recent drop_expired
recent-drop_expired window now t [] h = refl
recent-drop_expired window now t (x ∷ xs) h = ground (arith, recent-drop_expired window now t xs h)

pub recent-drop_expired-le :
    (window now t : ℕ) (xs : List ℕ)
    → recent window t (drop_expired window now xs) ≤ recent window t xs
unfolding recent drop_expired
recent-drop_expired-le window now t [] = omega arith
recent-drop_expired-le window now t (x ∷ xs) =
    ground (arith, recent-drop_expired-le window now t xs)

pub recent-retain_live :
    (window now t : ℕ) (xs : List ℕ)
    → now ≤ t
    → recent window t (retain_live window now xs) ≡ recent window t xs
unfolding recent retain_live
recent-retain_live window now t [] h = refl
recent-retain_live window now t (x ∷ xs) h = ground (arith, recent-retain_live window now t xs h)

pub length-retain_live :
    (window now : ℕ) (xs : List ℕ) → length (retain_live window now xs) ≡ recent window now xs
unfolding recent retain_live
length-retain_live window now [] = refl
length-retain_live window now (x ∷ xs) = ground (arith, length-retain_live window now xs)

pub length-drop_expired :
    (window now : ℕ) (xs : List ℕ) → length (drop_expired window now xs) ≤ length xs
unfolding drop_expired
length-drop_expired window now [] = omega arith
length-drop_expired window now (x ∷ xs) = ground (arith, length-drop_expired window now xs)

-- Oldest first.
abbrev pub IsOrdered : List ℕ → Type 0
IsOrdered [] = Unit
IsOrdered (x ∷ xs) = All (◌≤◌ x) xs × IsOrdered xs

recent-eq-length :
    (window now x : ℕ) (xs : List ℕ)
    → now - x < window
    → All (◌≤◌ x) xs
    → recent window now xs ≡ length xs
unfolding recent
recent-eq-length window now x [] h a = refl
recent-eq-length window now x (y ∷ ys) h a = ground (arith, recent-eq-length window now x ys h a.1)

-- Popping the expired front leaves exactly the live ones.
pub length-drop_expired-IsOrdered :
    (window now : ℕ) (xs : List ℕ)
    → IsOrdered xs
    → length (drop_expired window now xs) ≡ recent window now xs
unfolding recent drop_expired
length-drop_expired-IsOrdered window now [] o = refl
length-drop_expired-IsOrdered window now (x ∷ xs) o =
    ground
      (arith, length-drop_expired-IsOrdered window now xs o.1, recent-eq-length window now x xs)

pub drop_expired-IsOrdered :
    (window now : ℕ) (xs : List ℕ) → IsOrdered xs → IsOrdered (drop_expired window now xs)
unfolding drop_expired
drop_expired-IsOrdered window now [] o = tt
drop_expired-IsOrdered window now (x ∷ xs) o = ground (arith, drop_expired-IsOrdered window now xs)

pub drop_expired-All :
    (P : ℕ → Type 0) (window now : ℕ) (xs : List ℕ) → All P xs → All P (drop_expired window now xs)
unfolding drop_expired
drop_expired-All P window now [] h = tt
drop_expired-All P window now (x ∷ xs) h = ground (arith, drop_expired-All P window now xs)

pub push_back-IsOrdered :
    (xs : List ℕ) (now : ℕ) → All (λ x. x ≤ now) xs → IsOrdered xs → IsOrdered (xs ++ now ∷ [])
push_back-IsOrdered [] now h o = (tt, tt)
push_back-IsOrdered (x ∷ xs) now h o =
    (All-append (◌≤◌ x) xs (now ∷ []) o.0 (h.0, tt), push_back-IsOrdered xs now h.1 o.1)

pub All-le_trans : (xs : List ℕ) (now t : ℕ) → now ≤ t → All (λ x. x ≤ now) xs → All (λ x. x ≤ t) xs
All-le_trans [] now t h a = tt
All-le_trans (x ∷ xs) now t h a = (omega arith, All-le_trans xs now t h a.1)
