-- ===== src/Grpc/Frames/Exact.antt =====
-- `iter_frames` of src/grpc.rs is the inverse of the framing.
use ferroada.Prelude.{
  ℕ, zero, suc, ◌+◌, ◌^◌, ◌≤◌, ◌<◌, ◌≡◌, List, [], ◌∷◌, ◌++◌, length, take, drop, ok, All, arith,
  ◌*◌, Result-cases, subst, length-append, refl, inl, sym, inr, All-drop, length-take,
  take-append-drop, ◌∙◌, ap, take-length-append, drop-length-append,
}
use ferroada.Net.{from_be_bytes, to_be_bytes, IsByte}
use ferroada.Grpc.Frames.{frames_from, iter_frames, encode_frames}
use ferroada.Net.Laws.{length-to_be_bytes, from_be_bytes-to_be_bytes}

abbrev pub AreAtMost : ℕ → List (List ℕ) → Type 0
AreAtMost n ms = All (λ m. length m ≤ n) ms

cons_eq : {x y : ℕ} {xs ys : List ℕ} → x ≡ y → xs ≡ ys → ◌≡◌ {A = List ℕ} (x ∷ xs) (y ∷ ys)
cons_eq e es = cc

four_bytes :
    (b₁ b₂ b₃ b₄ : ℕ)
    → b₁ < 256
    → b₂ < 256
    → b₃ < 256
    → b₄ < 256
    → to_be_bytes 4 (from_be_bytes (b₁ ∷ b₂ ∷ b₃ ∷ b₄ ∷ [])) ≡ b₁ ∷ b₂ ∷ b₃ ∷ b₄ ∷ []
unfolding to_be_bytes from_be_bytes
four_bytes b₁ b₂ b₃ b₄ h₁ h₂ h₃ h₄ =
    let n = ((b₁ * 256 + b₂) * 256 + b₃) * 256 + b₄ in
    cons_eq (omega arith)
      (cons_eq (omega arith) (cons_eq (omega arith) (cons_eq (omega arith) refl)))

-- A message that was read is what its header announced.
frames_from_step :
    (fuel max_size c b₁ b₂ b₃ b₄ : ℕ) (rest : List ℕ) (frames : List (List ℕ))
    → frames_from (suc fuel) max_size (c ∷ b₁ ∷ b₂ ∷ b₃ ∷ b₄ ∷ rest) ≡ ok frames
    → let claimed = from_be_bytes (b₁ ∷ b₂ ∷ b₃ ∷ b₄ ∷ []) in
      (later : List (List ℕ)) × (c ≡ 0)
      × (claimed ≤ max_size)
      × (claimed ≤ length rest)
      × (frames_from fuel max_size (drop claimed rest) ≡ ok later)
      × (frames ≡ take claimed rest ∷ later)
unfolding frames_from
frames_from_step fuel max_size c b₁ b₂ b₃ b₄ rest frames h =
    let claimed = from_be_bytes (b₁ ∷ b₂ ∷ b₃ ∷ b₄ ∷ []) in
    elim (Result-cases (frames_from fuel max_size (drop claimed rest))) [
      | inl (e, failed) ↦ absurd (ground (arith, h, failed))
      | inr (later, read) ↦ (
        later,
        ground (arith, h),
        ground (arith, h),
        ground (arith, h),
        read,
        ground (arith, h, read),
      )
    ]

-- The framing of a message whose header and contents are known.
frame_eq :
    (c b₁ b₂ b₃ b₄ : ℕ) (rest m : List ℕ) (later : List (List ℕ))
    → c ≡ 0
    → to_be_bytes 4 (length m) ≡ b₁ ∷ b₂ ∷ b₃ ∷ b₄ ∷ []
    → rest ≡ m ++ encode_frames later
    → c ∷ b₁ ∷ b₂ ∷ b₃ ∷ b₄ ∷ rest ≡ encode_frames (m ∷ later)
unfolding encode_frames
frame_eq c b₁ b₂ b₃ b₄ rest m later z header whole = rw (header, z, whole)

frames_from_sound :
    (fuel max_size : ℕ) (body : List ℕ) (frames : List (List ℕ))
    → All IsByte body
    → frames_from fuel max_size body ≡ ok frames
    → (body ≡ encode_frames frames) × AreAtMost max_size frames
unfolding frames_from encode_frames
frames_from_sound fuel max_size [] frames bytes h =
    let e : frames ≡ [] = ground (arith, h) in
    (subst (λ fs. [] ≡ encode_frames fs) (sym e) refl, subst (AreAtMost max_size) (sym e) tt)
frames_from_sound (suc fuel) max_size (c ∷ b₁ ∷ b₂ ∷ b₃ ∷ b₄ ∷ rest) frames bytes h =
    let claimed = from_be_bytes (b₁ ∷ b₂ ∷ b₃ ∷ b₄ ∷ []) in
    let (later, zero_byte, small, whole, read, same) =
      frames_from_step fuel max_size c b₁ b₂ b₃ b₄ rest frames h in
    let (tail, at_most) =
      frames_from_sound fuel max_size (drop claimed rest) later
        (All-drop IsByte claimed rest bytes.1.1.1.1.1) read in
    let size : length (take claimed rest) ≡ claimed = omega (arith, length-take claimed rest) in
    let header = four_bytes b₁ b₂ b₃ b₄ bytes.1.0 bytes.1.1.0 bytes.1.1.1.0 bytes.1.1.1.1.0 in
    let whole_body : rest ≡ take claimed rest ++ encode_frames later =
      sym (take-append-drop claimed rest) ∙ ap (λ ys. take claimed rest ++ ys) tail in
    (
      subst (λ fs. c ∷ b₁ ∷ b₂ ∷ b₃ ∷ b₄ ∷ rest ≡ encode_frames fs) (sym same)
          (frame_eq c b₁ b₂ b₃ b₄ rest (take claimed rest) later zero_byte
            (ap (to_be_bytes 4) size ∙ header) whole_body),
      subst (AreAtMost max_size) (sym same) (omega (arith, size), at_most),
    )
frames_from_sound zero max_size (c ∷ rest) frames bytes h = cc
frames_from_sound (suc fuel) max_size (c ∷ []) frames bytes h = cc
frames_from_sound (suc fuel) max_size (c ∷ b₁ ∷ []) frames bytes h = cc
frames_from_sound (suc fuel) max_size (c ∷ b₁ ∷ b₂ ∷ []) frames bytes h = cc
frames_from_sound (suc fuel) max_size (c ∷ b₁ ∷ b₂ ∷ b₃ ∷ []) frames bytes h = cc

-- A body is accepted only if it is the framing of the messages that are read, none of them longer
-- than the limit.
pub iter_frames_sound :
    (max_size : ℕ) (body : List ℕ) (frames : List (List ℕ))
    → All IsByte body
    → iter_frames body max_size ≡ ok frames
    → (body ≡ encode_frames frames) × AreAtMost max_size frames
unfolding iter_frames
iter_frames_sound max_size body frames bytes h =
    frames_from_sound (length body) max_size body frames bytes h

frame_length :
    (m : List ℕ) (ms : List (List ℕ))
    → length (encode_frames (m ∷ ms)) ≡ 5 + length m + length (encode_frames ms)
unfolding encode_frames
frame_length m ms = omega (
  arith,
  length-append (0 ∷ to_be_bytes 4 (length m) ++ m) (encode_frames ms),
  length-append (0 ∷ to_be_bytes 4 (length m)) m,
  length-to_be_bytes 4 (length m),
)

frames_from_message :
    (fuel max_size b₁ b₂ b₃ b₄ : ℕ) (m tail : List ℕ) (later : List (List ℕ))
    → from_be_bytes (b₁ ∷ b₂ ∷ b₃ ∷ b₄ ∷ []) ≡ length m
    → length m ≤ max_size
    → frames_from fuel max_size tail ≡ ok later
    → frames_from (suc fuel) max_size (0 ∷ b₁ ∷ b₂ ∷ b₃ ∷ b₄ ∷ (m ++ tail)) ≡ ok (m ∷ later)
unfolding frames_from
frames_from_message fuel max_size b₁ b₂ b₃ b₄ m tail later claimed small read =
    let whole = take-length-append m tail in
    let behind = drop-length-append m tail in
    let long = length-append m tail in
    let next : frames_from fuel max_size (drop (length m) (m ++ tail)) ≡ ok later =
      ap (frames_from fuel max_size) behind ∙ read in
    rw (claimed, whole, next) (ground (arith, long))

frames_from-encode_frames :
    (fuel max_size : ℕ) (ms : List (List ℕ))
    → max_size < 2 ^ 32
    → AreAtMost max_size ms
    → length (encode_frames ms) ≤ fuel
    → frames_from fuel max_size (encode_frames ms) ≡ ok ms
unfolding frames_from encode_frames to_be_bytes
frames_from-encode_frames fuel max_size [] small h enough = refl
frames_from-encode_frames zero max_size (m ∷ ms) small h enough =
    absurd (omega (arith, frame_length m ms))
frames_from-encode_frames (suc fuel) max_size (m ∷ ms) small h enough =
    let rest =
      frames_from-encode_frames fuel max_size ms small h.1 (omega (arith, frame_length m ms)) in
    frames_from_message fuel max_size _ _ _ _ m (encode_frames ms) ms
      (from_be_bytes-to_be_bytes 4 (length m) (omega arith)) h.0 rest

-- And the framing of any messages within the limit is read as these messages: the length of the body
-- is fuel enough. A limit has 32 bits at most, as those of the policy have.
pub iter_frames-encode_frames :
    (max_size : ℕ) (ms : List (List ℕ))
    → max_size < 2 ^ 32
    → AreAtMost max_size ms
    → iter_frames (encode_frames ms) max_size ≡ ok ms
unfolding iter_frames
iter_frames-encode_frames max_size ms small h =
    frames_from-encode_frames (length (encode_frames ms)) max_size ms small h (omega arith)
