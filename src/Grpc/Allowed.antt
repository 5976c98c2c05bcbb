-- ===== src/Grpc/Allowed.antt =====
-- What is true of a body that src/grpc.rs allows.
use ferroada.Prelude.{
  ℕ, ◌≡◌, ◌⊎◌, inl, inr, List, [], ◌∷◌, true, Option, none, some, ok, All, arith, Result-cases,
  Option-cases, Bool-cases, refl,
}
use ferroada.Text.{Text, text, eq_ignore_ascii_case}
use ferroada.Net.{IsByte}
use ferroada.Grpc.Frames.{FrameFail, iter_frames, encode_frames}
use ferroada.Grpc.Frames.Exact.{AreAtMost, iter_frames_sound}
use ferroada.Grpc.Rpc.{is_grpc_content_type, rpc_from_path, is_reflection, split_rpc}
use ferroada.Grpc.{
  DescriptorPool, GrpcInner, GrpcVerdict, check_body, check_frames, check_input, decode_all, allows,
}

module _ (pool : DescriptorPool) where
  open pool use {Message, input_of, decodes}

  -- Every message decodes as the input of a method of the allowlist.
  abbrev pub AreInputs : GrpcInner → Text → List (List ℕ) → Type 0
  AreInputs inner rpc frames =
      (allows inner.allow rpc ≡ true)
      × (service : Text) × (name : Text) × (input : Message) × (split_rpc rpc
          ≡ some (service, name))
      × (input_of service name ≡ some input)
      × All (λ m. decodes input m ≡ true) frames

  decode_all-allow :
      (input : Message) (frames : List (List ℕ)) (t : Option Text)
      → decode_all pool input frames ≡ GrpcVerdict.allow t
      → All (λ m. decodes input m ≡ true) frames
  unfolding decode_all
  decode_all-allow input [] t h = tt
  decode_all-allow input (m ∷ frames) t h = ground (arith, h, decode_all-allow input frames t)

  check_input-allow :
      (names : Option (Text × Text)) (frames : List (List ℕ)) (t : Option Text)
      → check_input pool names frames ≡ GrpcVerdict.allow t
      → (service : Text) × (name : Text) × (input : Message) × (names ≡ some (service, name))
        × (input_of service name ≡ some input)
        × All (λ m. decodes input m ≡ true) frames
  unfolding check_input
  check_input-allow none frames t h = cc
  check_input-allow (some (service, name)) frames t h =
      elim (Option-cases (input_of service name)) [
        | inl missing ↦ absurd (ground (arith, h, missing))
        | inr (input, found) ↦
            let decoded : decode_all pool input frames ≡ GrpcVerdict.allow t =
              ground (arith, h, found) in
            (service, name, input, refl, found, decode_all-allow input frames t decoded)
      ]

  allowed :
      (inner : GrpcInner) (rpc : Text) (frames : List (List ℕ)) (t : Option Text)
      → check_frames pool inner rpc (ok frames) ≡ GrpcVerdict.allow t
      → ((is_reflection rpc ≡ true) × (inner.reflection ≡ true)) ⊎ AreInputs inner rpc frames
  unfolding check_frames
  allowed inner rpc frames t h = elim (Bool-cases (is_reflection rpc)) [
    | inl reflects ↦ inl (reflects, ground (arith, h, reflects))
    | inr other ↦
        let listed : allows inner.allow rpc ≡ true = ground (arith, h, other) in
        let checked : check_input pool (split_rpc rpc) frames ≡ GrpcVerdict.allow t =
          ground (arith, h, other, listed) in
        let (service, name, input, names, found, decoded) =
          check_input-allow (split_rpc rpc) frames t checked in
        inr (listed, service, name, input, names, found, decoded)
  ]

  -- A body that is allowed is POSTed as gRPC, is the framing of messages within the limit, and either
  -- asks for a reflection that the site offers, or calls a method of the allowlist with messages that
  -- decode as its input.
  pub check_body-allow :
      (inner : GrpcInner) (verb path : Text) (content_type : Option Text) (body : List ℕ)
      (t : Option Text)
      → All IsByte body
      → check_body pool inner verb path content_type body ≡ GrpcVerdict.allow t
      → (is_grpc_content_type content_type ≡ true)
        × (eq_ignore_ascii_case verb (text "POST") ≡ true)
        × ((frames : List (List ℕ)) × (body ≡ encode_frames frames)
            × AreAtMost inner.max_message_bytes frames
            × (((is_reflection (rpc_from_path path) ≡ true) × (inner.reflection ≡ true))
                ⊎ AreInputs inner (rpc_from_path path) frames))
  unfolding check_body check_frames
  check_body-allow inner verb path content_type body t bytes h =
      elim (Result-cases (iter_frames body inner.max_message_bytes)) [
        | inl (FrameFail.size, failed) ↦ absurd (ground (arith, h, failed))
        | inl (FrameFail.parse, failed) ↦ absurd (ground (arith, h, failed))
        | inr (frames, read) ↦
            let (same, small) = iter_frames_sound inner.max_message_bytes body frames bytes read in
            (
              ground (arith, h),
              ground (arith, h),
              (
                frames,
                same,
                small,
                allowed inner (rpc_from_path path) frames t (ground (arith, h, read)),
              ),
            )
      ]
