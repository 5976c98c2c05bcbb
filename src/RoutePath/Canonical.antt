-- ===== src/RoutePath/Canonical.antt =====
-- The canonical path of src/config.rs: a `/` and the segments that are left, none of which can be
-- decoded, split or resolved further.
use ferroada.Prelude.{
  ℕ, ◌≤◌, ◌≡◌, ◌≢◌, List, [], ◌∷◌, true, false, Option, none, some, All, arith, list_eq, subst,
  Bool-cases, if_both, sym, ◌==◌, refl, ◌∙◌, inl, ◌||◌, inr, All-append, list_eq-false→ne,
}
use ferroada.Text.{Text, text, split, onto_first}
use ferroada.RoutePath.Utf8.{Decoder, from_utf8, utf8_from, next_byte, lead, finish, emit, as_bytes}
use ferroada.RoutePath.Decoding.{bind-eq-some, checked-IsPlainByte, IsPlainByte}
use ferroada.RoutePath.{
  slashes, pop, push_segment, resolve, join, canonical_route_path, decode_rounds, check_stable,
}

-- Neither a `/`, nor a `\`, nor a `%`.
abbrev pub IsPlainChar : ℕ → Type 0
IsPlainChar c = (c ≢ 47) × (c ≢ 92) × (c ≢ 37)

-- Neither empty, nor `.`, nor `..`, of plain characters.
abbrev pub IsPlainSegment : Text → Type 0
IsPlainSegment s = (s ≢ []) × (s ≢ text ".") × (s ≢ text "..") × All IsPlainChar s

-- A character of more than one byte is at least 80 (hexadecimal), which no `%` is.
abbrev IsSafe : Decoder → Type 0
IsSafe Decoder.start = Unit
IsSafe Decoder.bad = Unit
IsSafe (Decoder.more need least acc) = 0x80 ≤ least

abbrev IsPlainOutput : Option ℕ → Type 0
IsPlainOutput none = Unit
IsPlainOutput (some c) = c ≢ 37

next_byte-IsSafe :
    (d : Decoder) (b : ℕ)
    → IsSafe d
    → b ≢ 37
    → IsSafe (next_byte d b).0 × IsPlainOutput (next_byte d b).1
unfolding next_byte lead finish
next_byte-IsSafe Decoder.start b s p = ground (arith, p)
next_byte-IsSafe Decoder.bad b s p = (tt, tt)
next_byte-IsSafe (Decoder.more need least acc) b s p = ground (arith, s)

utf8_step :
    (d : Decoder) (b : ℕ) (bs : List ℕ)
    → utf8_from d (b ∷ bs) ≡ emit (next_byte d b).1 (utf8_from (next_byte d b).0 bs)
unfolding utf8_from
utf8_step Decoder.start b bs = refl
utf8_step Decoder.bad b bs = refl
utf8_step (Decoder.more need least acc) b bs = refl

emit-All :
    (o : Option ℕ) (r : Option Text) (t : Text)
    → emit o r ≡ some t
    → IsPlainOutput o
    → ((rest : Text) → r ≡ some rest → All (λ c. c ≢ 37) rest)
    → All (λ c. c ≢ 37) t
emit-All none r t h p all = all t h
emit-All (some c) none t h p all = cc
emit-All (some c) (some cs) t h p all =
    let e : t ≡ c ∷ cs = ground (arith, h) in subst (All (λ b. b ≢ 37)) (sym e) (p, all cs refl)

utf8_from-IsPlainByte :
    (d : Decoder) (bs : List ℕ) (t : Text)
    → IsSafe d
    → All IsPlainByte bs
    → utf8_from d bs ≡ some t
    → All (λ c. c ≢ 37) t
unfolding utf8_from
utf8_from-IsPlainByte Decoder.start [] t s p h =
    let empty : t ≡ [] = ground (arith, h) in subst (All (λ c. c ≢ 37)) (sym empty) tt
utf8_from-IsPlainByte Decoder.bad [] t s p h = cc
utf8_from-IsPlainByte (Decoder.more need least acc) [] t s p h = cc
utf8_from-IsPlainByte d (b ∷ bs) t s p h =
    let (safe, plain) = next_byte-IsSafe d b s p.0 in
    emit-All (next_byte d b).1 (utf8_from (next_byte d b).0 bs) t (sym (utf8_step d b bs) ∙ h) plain
      (λ rest r. utf8_from-IsPlainByte (next_byte d b).0 bs rest safe p.1 r)

-- Segments of plain characters.
abbrev IsPlainText : Text → Type 0
IsPlainText s = All IsPlainChar s

slashes-All : (t : Text) → All (λ c. c ≢ 37) t → All (λ c. (c ≢ 92) × (c ≢ 37)) (slashes t)
unfolding slashes
slashes-All [] h = tt
slashes-All (c ∷ cs) h = (ground (arith, h.0), slashes-All cs h.1)

split_at : (c : ℕ) (cs : Text) → (c == 47) ≡ true → split 47 (c ∷ cs) ≡ [] ∷ split 47 cs
unfolding split
split_at c cs h = rw h

split_inside :
    (c : ℕ) (cs : Text) → (c == 47) ≡ false → split 47 (c ∷ cs) ≡ onto_first c (split 47 cs)
unfolding split
split_inside c cs h = rw h

onto_first-All :
    (c : ℕ) (parts : List Text)
    → IsPlainChar c
    → All IsPlainText parts
    → All IsPlainText (onto_first c parts)
onto_first-All c [] p h = ((p, tt), tt)
onto_first-All c (part ∷ parts) p h = ((p, h.0), h.1)

split-All : (t : Text) → All (λ c. (c ≢ 92) × (c ≢ 37)) t → All IsPlainText (split 47 t)
unfolding split
split-All [] h = (tt, tt)
split-All (c ∷ cs) h =
    let rest = split-All cs h.1 in
    elim (Bool-cases (c == 47)) [
      | inl slash ↦ subst (All IsPlainText) (sym (split_at c cs slash)) (tt, rest)
      | inr other ↦
          subst (All IsPlainText) (sym (split_inside c cs other))
            (onto_first-All c (split 47 cs) (λ e. ground (arith, other, e), h.0.0, h.0.1) rest)
    ]

pop-All : (P : Text → Type 0) (ss : List Text) → All P ss → All P (pop ss)
unfolding pop
pop-All P [] h = tt
pop-All P (s ∷ []) h = tt
pop-All P (s ∷ t ∷ ts) h = (h.0, pop-All P (t ∷ ts) h.1)

push_segment-All :
    (ss : List Text) (s : Text)
    → All IsPlainSegment ss
    → IsPlainText s
    → All IsPlainSegment (push_segment ss s)
unfolding push_segment
push_segment-All ss s h p =
    if_both (All IsPlainSegment) (list_eq s [] || list_eq s (text ".")) (λ _. h)
      (λ keep.
        if_both (All IsPlainSegment) (list_eq s (text "..")) (λ _. pop-All IsPlainSegment ss h)
          (λ other. All-append IsPlainSegment ss (s ∷ []) h (
            (
              list_eq-false→ne s [] (ground (arith, keep)),
              list_eq-false→ne s (text ".") (ground (arith, keep)),
              list_eq-false→ne s (text "..") other,
              p,
            ),
            tt,
          )))

resolve-All :
    (ss parts : List Text)
    → All IsPlainSegment ss
    → All IsPlainText parts
    → All IsPlainSegment (resolve ss parts)
unfolding resolve
resolve-All ss [] h p = h
resolve-All ss (s ∷ parts) h p =
    resolve-All (push_segment ss s) parts (push_segment-All ss s h p.0) p.1

-- What is not refused is a `/` and segments joined by `/`, each of which is not empty, is neither `.`
-- nor `..`, and has no `/`, no `\` and no `%` in it, however often the path was encoded.
pub canonical_route_path-IsPlainSegment :
    (path canonical : Text)
    → canonical_route_path path ≡ some canonical
    → (segments : List Text) × (canonical ≡ 47 ∷ join segments) × All IsPlainSegment segments
unfolding canonical_route_path from_utf8
canonical_route_path-IsPlainSegment path canonical h =
    let (looped, rounds, h₁) = bind-eq-some (decode_rounds 8 (as_bytes path)) _ h in
    let (decoded, checked, h₂) = bind-eq-some (check_stable looped) _ h₁ in
    let (t, read, h₃) = bind-eq-some (from_utf8 decoded) _ h₂ in
    let bytes = checked-IsPlainByte 8 (as_bytes path) decoded looped rounds checked in
    let chars = utf8_from-IsPlainByte Decoder.start decoded t tt bytes read in
    let parts = split-All (slashes t) (slashes-All t chars) in
    (
      resolve [] (split 47 (slashes t)),
      ground (arith, h₃),
      resolve-All [] (split 47 (slashes t)) tt parts,
    )
