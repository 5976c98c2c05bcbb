-- ===== src/Grpc/Deadline.antt =====
-- What is true of a call whose headers src/grpc.rs allows.
use ferroada.Prelude.{
  ℕ, ◌%◌, ◌*◌, ◌≤◌, ◌<◌, false, ◌≡◌, ◌⊎◌, inl, inr, true, Option, none, some, arith, Option-cases,
  Bool-cases, ltb, sym,
}
use ferroada.Text.{Text, text, eq_ignore_ascii_case}
use ferroada.Grpc.Timeout.{millisecond, second, parse_grpc_timeout, encode_grpc_timeout}
use ferroada.Grpc.Timeout.RoundTrip.{parse_grpc_timeout-encode_grpc_timeout}
use ferroada.Grpc.Rpc.{is_grpc_content_type, rpc_from_path, is_reflection}
use ferroada.Grpc.{
  GrpcInner, GrpcVerdict, check_headers, timeout_verdict, timeout_of, client_timeout, given, allows,
}

-- A timeout that the client did not give, where the policy does not ask for one.
abbrev pub IsAbsent : GrpcInner → Option Text → Type 0
IsAbsent inner grpc_timeout = (given grpc_timeout ≡ none) × (inner.require_deadline ≡ false)

-- The client gave a timeout that reads as a time.
abbrev pub Reads : Option Text → ℕ → Type 0
Reads grpc_timeout got =
    (raw : Text) × (given grpc_timeout ≡ some raw) × (parse_grpc_timeout raw ≡ some got)

-- The deadline is written where the client's timeout is absent or longer; where it is not, the
-- client's own is kept.
abbrev pub IsWithinDeadline : GrpcInner → Option Text → Option Text → Type 0
IsWithinDeadline inner grpc_timeout t =
    ((sent : Text) × (t ≡ some sent)
      × (parse_grpc_timeout sent ≡ some inner.deadline)
      × (IsAbsent inner grpc_timeout
          ⊎ ((got : ℕ) × Reads grpc_timeout got × (inner.deadline < got))))
    ⊎ ((t ≡ none) × ((got : ℕ) × Reads grpc_timeout got × (got ≤ inner.deadline)))

-- A deadline that the policy can have.
abbrev pub IsDeadline : ℕ → Type 0
IsDeadline d = (d % millisecond ≡ 0) × (d ≤ 600 * second)

sent_deadline :
    (inner : GrpcInner) (o t : Option Text)
    → IsDeadline inner.deadline
    → IsAbsent inner o ⊎ ((got : ℕ) × Reads o got × (inner.deadline < got))
    → some (encode_grpc_timeout inner.deadline) ≡ t
    → IsWithinDeadline inner o t
sent_deadline inner o t d why e = inl (
  encode_grpc_timeout inner.deadline,
  sym e,
  parse_grpc_timeout-encode_grpc_timeout inner.deadline d.0 d.1,
  why,
)

timeout_verdict-allow :
    (rpc : Text) (o t : Option Text) (inner : GrpcInner)
    → IsDeadline inner.deadline
    → timeout_verdict rpc o inner ≡ GrpcVerdict.allow t
    → IsWithinDeadline inner o t
unfolding timeout_verdict timeout_of client_timeout
timeout_verdict-allow rpc o t inner d h = elim (Option-cases (given o)) [
  | inl absent ↦
      let optional : inner.require_deadline ≡ false = ground (arith, h, absent) in
      sent_deadline inner o t d (inl (absent, optional)) (ground (arith, h, absent))
  | inr (raw, present) ↦ elim (Option-cases (parse_grpc_timeout raw)) [
    | inl wrong ↦ absurd (ground (arith, h, present, wrong))
    | inr (got, read) ↦ elim (Bool-cases (ltb inner.deadline got)) [
      | inl longer ↦
          sent_deadline inner o t d (inr (got, (raw, present, read), ground (arith, longer)))
            (ground (arith, h, present, read, longer))
      | inr shorter ↦ inr (
        ground (arith, h, present, read, shorter),
        (got, (raw, present, read), ground (arith, shorter)),
      )
    ]
  ]
]

-- A call that is allowed is POSTed as gRPC to a method of the allowlist, or to a reflection that the
-- site offers. Either its timeout can be read and is within the deadline, and stays as it is; or its
-- timeout can be read and is longer, or it has none and needs none, and one that reads as the
-- deadline is sent. The deadline is a whole number of milliseconds of ten minutes at most.
pub check_headers-allow :
    (inner : GrpcInner) (verb path : Text) (content_type grpc_timeout t : Option Text)
    → IsDeadline inner.deadline
    → check_headers inner verb path content_type grpc_timeout ≡ GrpcVerdict.allow t
    → (is_grpc_content_type content_type ≡ true)
      × (eq_ignore_ascii_case verb (text "POST") ≡ true)
      × (((is_reflection (rpc_from_path path) ≡ true) × (inner.reflection ≡ true))
          ⊎ (allows inner.allow (rpc_from_path path) ≡ true))
      × IsWithinDeadline inner grpc_timeout t
unfolding check_headers
check_headers-allow inner verb path content_type grpc_timeout t d h =
    let rpc = rpc_from_path path in
    let timed : timeout_verdict rpc grpc_timeout inner ≡ GrpcVerdict.allow t = ground (arith, h) in
    (
      ground (arith, h),
      ground (arith, h),
      ground (arith, h),
      timeout_verdict-allow rpc grpc_timeout t inner d timed,
    )
