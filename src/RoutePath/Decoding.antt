-- ===== src/RoutePath/Decoding.antt =====
-- A path that src/config.rs has decoded until it is stable has no `%` left.
use ferroada.Prelude.{
  ℕ, ◌+◌, ◌≤◌, ◌≡◌, ◌≢◌, List, [], ◌∷◌, length, Bool, true, false, Option, none, some, All, arith,
  ap, Bool-cases, refl, ◌==◌, inl, inr, sym, suc, ◌∙◌, list_eq, list_eq→eq, subst, zero,
}
use ferroada.RoutePath.{
  Position, decode_from, percent_decode, decode_rounds, check_stable, cons_to, ◌>>?◌, hex_value,
}

-- No `%`.
abbrev pub IsPlainByte : ℕ → Type 0
IsPlainByte b = b ≢ 37

abbrev read_so_far : Position → ℕ
read_so_far Position.plain = 0
read_so_far Position.percent = 1
read_so_far (Position.high h) = 2

pub bind-eq-some {ℓ κ} :
    {A : Type ℓ} {B : Type κ} (o : Option A) (next : A → Option B) {y : B}
    → (o >>? next) ≡ some y
    → (x : A) × (o ≡ some x) × (next x ≡ some y)
bind-eq-some none next h = cc
bind-eq-some (some x) next h = (x, refl, h)

cons_to-eq-some :
    (b : ℕ) (o : Option (List ℕ)) (out : List ℕ)
    → cons_to b o ≡ some out
    → (bs : List ℕ) × (o ≡ some bs) × (out ≡ b ∷ bs)
cons_to-eq-some b none out h = cc
cons_to-eq-some b (some bs) out h = (bs, refl, ground arith)

decode_percent :
    (b : ℕ) (bs : List ℕ)
    → (b == b'%') ≡ true
    → decode_from Position.plain (b ∷ bs) ≡ decode_from Position.percent bs
unfolding decode_from
decode_percent b bs h = rw h

decode_other :
    (b : ℕ) (bs : List ℕ)
    → (b == b'%') ≡ false
    → decode_from Position.plain (b ∷ bs) ≡ cons_to b (decode_from Position.plain bs)
unfolding decode_from
decode_other b bs h = rw h

-- What is decoded is shorter by what the position has already read and has no byte for.
length-decode_from :
    (p : Position) (bs out : List ℕ)
    → decode_from p bs ≡ some out
    → length out + (elim p [ Position.plain ↦ 0 | Position.percent ↦ 1 | Position.high h ↦ 0 ])
      ≤ length bs
unfolding decode_from
length-decode_from Position.plain [] out h = ground (arith, h)
length-decode_from Position.percent [] out h = cc
length-decode_from (Position.high k) [] out h = cc
length-decode_from Position.plain (b ∷ bs) out h = elim (Bool-cases (b == b'%')) [
  | inl percent ↦
      let short =
        length-decode_from Position.percent bs out (sym (decode_percent b bs percent) ∙ h) in
      omega (arith, short)
  | inr other ↦
      let (rest, r, same) =
        cons_to-eq-some b (decode_from Position.plain bs) out (sym (decode_other b bs other) ∙ h) in
      let short = length-decode_from Position.plain bs rest r in ground (arith, same, short)
]
length-decode_from Position.percent (b ∷ bs) out h =
    let (v, _, e) = bind-eq-some (hex_value b) _ h in
    omega (arith, length-decode_from (Position.high v) bs out e)
length-decode_from (Position.high k) (b ∷ bs) out h =
    let (v, _, e) = bind-eq-some (hex_value b) _ h in
    let (rest, r, same) = cons_to-eq-some _ (decode_from Position.plain bs) out e in
    let short = length-decode_from Position.plain bs rest r in ground (arith, same, short)

same_length-IsPlainByte :
    (bs out : List ℕ)
    → decode_from Position.plain bs ≡ some out
    → length out ≡ length bs
    → All IsPlainByte bs
same_length-IsPlainByte [] out h e = tt
same_length-IsPlainByte (b ∷ bs) out h e = elim (Bool-cases (b == b'%')) [
  | inl percent ↦
      let short =
        length-decode_from Position.percent bs out (sym (decode_percent b bs percent) ∙ h) in
      absurd (omega (arith, short))
  | inr other ↦
      let (rest, r, same) =
        cons_to-eq-some b (decode_from Position.plain bs) out (sym (decode_other b bs other) ∙ h) in
      let e' : length rest ≡ length bs = ground (arith, same, e) in
      let differs : IsPlainByte b = λ equal. ground (arith, other, equal) in
      (differs, same_length-IsPlainByte bs rest r e')
]

pub stable-IsPlainByte : (bs : List ℕ) → percent_decode bs ≡ some bs → All IsPlainByte bs
unfolding percent_decode
stable-IsPlainByte bs h = same_length-IsPlainByte bs bs h refl

decode_rounds-stable :
    (n : ℕ) (bs out : List ℕ)
    → decode_rounds n bs ≡ some (out, true)
    → percent_decode out ≡ some out
unfolding decode_rounds
decode_rounds-stable zero bs out h = cc
decode_rounds-stable (suc n) bs out h =
    let (next, found, step) = bind-eq-some (percent_decode bs) _ h in
    elim (Bool-cases (list_eq next bs)) [
      | inl same ↦
          let e = list_eq→eq next bs same in
          let ends : bs ≡ out = ground (arith, step, same) in
          subst (λ d. percent_decode d ≡ some d) ends (found ∙ ap some e)
      | inr differs ↦
          let rest : decode_rounds n next ≡ some (out, true) = ground (arith, step, differs) in
          decode_rounds-stable n next out rest
    ]

-- Whatever the rounds end with is used only if it is stable.
pub checked-IsPlainByte :
    (n : ℕ) (bs out : List ℕ) (looped : List ℕ × Bool)
    → decode_rounds n bs ≡ some looped
    → check_stable looped ≡ some out
    → All IsPlainByte out
unfolding check_stable
checked-IsPlainByte n bs out (decoded, true) h c =
    let e : decoded ≡ out = ground (arith, c) in
    stable-IsPlainByte out (decode_rounds-stable n bs out (h ∙ ap (λ d. some (d, true)) e))
checked-IsPlainByte n bs out (decoded, false) h c =
    let (next, found, step) = bind-eq-some (percent_decode decoded) _ c in
    elim (Bool-cases (list_eq next decoded)) [
      | inl same ↦
          let e = list_eq→eq next decoded same in
          let ends : decoded ≡ out = ground (arith, step, same) in
          stable-IsPlainByte out (subst (λ d. percent_decode d ≡ some d) ends (found ∙ ap some e))
      | inr differs ↦ absurd (ground (arith, step, differs))
    ]
