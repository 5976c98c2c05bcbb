-- ===== src/ProxyProtocol/Parsing.antt =====
-- `parse_v2` reads the header and nothing behind it.
use ferroada.Prelude.{
  ℕ, ◌+◌, ◌/◌, ◌%◌, ◌^◌, ◌≤◌, ◌<◌, ◌≡◌, refl, inl, inr, ◌==◌, sym, ap, subst, ◌∙◌, ◌≢◌, Option,
  some, List, arith, leb, le→leb, leb→le, Bool-cases, length, length-take, get_or, get_or-take,
  take, take-take, drop, drop-take, All, All-get_or, All-take, All-drop, list_eq→eq, ok, err,
  ok-injective, bind-eq-ok, ensure-eq-ok,
}
use ferroada.Net.{SocketAddr, IsByte, FitsAddr, from_be_bytes}
use ferroada.Net.Laws.{from_be_bytes-lt}
use ferroada.ProxyProtocol.{
  oversized, signature, prefix, inet_addr, inet6_addr, fam_inet, rest_len_from_prefix, parse_inet4,
  parse_inet6, parse_source, parse_rest, parse_v2,
}

parse_rest-take :
    (rest : ℕ) (bs : List ℕ) → parse_rest rest (take (16 + rest) bs) ≡ parse_rest rest bs
unfolding parse_rest
parse_rest-take rest bs = rw (
  get_or-take 12 (16 + rest) bs 0 (omega arith),
  get_or-take 13 (16 + rest) bs 0 (omega arith),
  drop-take 16 rest (16 + rest) bs refl,
  take-take rest rest (drop 16 bs) (omega arith),
)

-- The three tests before the address block, passed.
parse_v2-eq-parse_rest :
    (bs : List ℕ) (rest : ℕ)
    → rest_len_from_prefix (take 16 bs) ≡ ok rest
    → 16 + rest ≤ length bs
    → parse_v2 bs ≡ parse_rest rest bs
unfolding parse_v2
parse_v2-eq-parse_rest bs rest e h =
    rw (le→leb 16 (length bs) (omega arith), e, le→leb (16 + rest) (length bs) h)

pub parse_v2-take :
    (bs : List ℕ) (rest : ℕ)
    → rest_len_from_prefix (take 16 bs) ≡ ok rest
    → 16 + rest ≤ length bs
    → parse_v2 (take (16 + rest) bs) ≡ parse_v2 bs
parse_v2-take bs rest e h =
    parse_v2-eq-parse_rest (take (16 + rest) bs) rest
      (rw (take-take 16 (16 + rest) bs (omega arith)) e) (omega (arith, length-take (16 + rest) bs))
    ∙ parse_rest-take rest bs
    ∙ sym (parse_v2-eq-parse_rest bs rest e h)

parse_rest_total :
    (rest : ℕ) (bs : List ℕ) (s : Option SocketAddr) (n : ℕ)
    → parse_rest rest bs ≡ ok (s, n)
    → n ≡ 16 + rest
unfolding parse_rest
parse_rest_total rest bs s n e = ground arith

-- What an accepted header has passed.
pub parse_v2_inversion :
    (bs : List ℕ) (s : Option SocketAddr) (n : ℕ)
    → parse_v2 bs ≡ ok (s, n)
    → (rest : ℕ) × (rest_len_from_prefix (take 16 bs) ≡ ok rest)
      × (16 + rest ≤ length bs)
      × (n ≡ 16 + rest)
      × (parse_rest rest bs ≡ ok (s, n))
unfolding parse_v2
parse_v2_inversion bs s n e =
    let (_, e₁) = ensure-eq-ok (leb 16 (length bs)) _ _ e in
    let (rest, fits, e₂) = bind-eq-ok (rest_len_from_prefix (take 16 bs)) _ e₁ in
    let (there, e₃) = ensure-eq-ok (leb (16 + rest) (length bs)) _ _ e₂ in
    (rest, fits, leb→le _ _ there, parse_rest_total rest bs s n e₃, e₃)

-- A second input that agrees on the bytes of the header parses alike.
pub parse_v2-local :
    (xs ys : List ℕ) (s : Option SocketAddr) (n : ℕ)
    → parse_v2 xs ≡ ok (s, n)
    → take n ys ≡ take n xs
    → parse_v2 ys ≡ ok (s, n)
parse_v2-local xs ys s n e same =
    let (rest, fits, room, total, parsed) = parse_v2_inversion xs s n e in
    let agree : take (16 + rest) ys ≡ take (16 + rest) xs =
      subst (λ k. take k ys ≡ take k xs) total same in
    let head : take 16 ys ≡ take 16 xs =
      sym (take-take 16 (16 + rest) ys (omega arith))
      ∙ ap (take 16) agree
      ∙ take-take 16 (16 + rest) xs (omega arith) in
    let long : 16 + rest ≤ length ys =
      omega (
        arith,
        length-take (16 + rest) ys,
        length-take (16 + rest) xs,
        ap (length {A = ℕ}) agree,
      ) in
    parse_v2-eq-parse_rest ys rest (rw head fits) long
    ∙ sym (parse_rest-take rest ys)
    ∙ ap (parse_rest rest) agree
    ∙ parse_rest-take rest xs
    ∙ parsed

rest_len-ne-oversized : (bs : List ℕ) → All IsByte bs → rest_len_from_prefix bs ≢ err oversized
unfolding rest_len_from_prefix from_be_bytes
rest_len-ne-oversized bs h =
    ground
      (arith, All-get_or IsByte bs 14 0 h (omega arith), All-get_or IsByte bs 15 0 h (omega arith))

parse_rest-ne-oversized : (rest : ℕ) (bs : List ℕ) → parse_rest rest bs ≢ err oversized
unfolding parse_rest parse_source parse_inet4 parse_inet6
parse_rest-ne-oversized rest bs = ground arith

-- No header is refused as oversized.
pub parse_v2-ne-oversized : (bs : List ℕ) → All IsByte bs → parse_v2 bs ≢ err oversized
unfolding parse_v2
parse_v2-ne-oversized bs h e =
    grind
      (arith, rest_len-ne-oversized (take 16 bs) (All-take IsByte 16 bs h), parse_rest-ne-oversized)

parse_inet4-FitsAddr :
    (addr : List ℕ) (a : SocketAddr) → All IsByte addr → parse_inet4 addr ≡ ok a → FitsAddr a
unfolding parse_inet4
parse_inet4-FitsAddr addr a h e =
    let (_, found) = ensure-eq-ok (leb inet_addr (length addr)) _ _ e in
    subst FitsAddr (ok-injective found) (
      from_be_bytes-lt _ (byte 0, (byte 1, (byte 2, (byte 3, tt)))),
      from_be_bytes-lt _ (byte 8, (byte 9, tt)),
    )
  where
    byte : (i : ℕ) → IsByte (get_or addr i 0)
    byte i = All-get_or IsByte addr i 0 h (omega arith)

parse_inet6-FitsAddr :
    (addr : List ℕ) (a : SocketAddr) → All IsByte addr → parse_inet6 addr ≡ ok a → FitsAddr a
unfolding parse_inet6
parse_inet6-FitsAddr addr a h e =
    let (long, found) = ensure-eq-ok (leb inet6_addr (length addr)) _ _ e in
    subst FitsAddr (ok-injective found) (
      subst (λ k. from_be_bytes (take 16 addr) < 256 ^ k) {y = 16}
          (omega (arith, length-take 16 addr, leb→le 36 (length addr) long))
          (from_be_bytes-lt (take 16 addr) (All-take IsByte 16 addr h)),
      from_be_bytes-lt _ (byte 32, (byte 33, tt)),
    )
  where
    byte : (i : ℕ) → IsByte (get_or addr i 0)
    byte i = All-get_or IsByte addr i 0 h (omega arith)

rest_len_passed :
    (bs : List ℕ) (rest : ℕ)
    → rest_len_from_prefix bs ≡ ok rest
    → (take 12 bs ≡ signature) × (get_or bs 12 0 / 16 ≡ 2)
unfolding rest_len_from_prefix
rest_len_passed bs rest e = (list_eq→eq (take 12 bs) signature (ground arith), ground arith)

parse_source-FitsAddr :
    (family : ℕ) (addr : List ℕ) (a : SocketAddr)
    → All IsByte addr
    → parse_source family addr ≡ ok (some a)
    → FitsAddr a
unfolding parse_source
parse_source-FitsAddr family addr a h e = elim (Bool-cases (family == fam_inet)) [
  | inl inet ↦ parse_inet4-FitsAddr addr a h (ground arith)
  | inr other ↦ parse_inet6-FitsAddr addr a h (ground arith)
]

parse_rest_source :
    (rest : ℕ) (bs : List ℕ) (a : SocketAddr) (n : ℕ)
    → All IsByte bs
    → parse_rest rest bs ≡ ok (some a, n)
    → (get_or bs 12 0 % 16 ≡ 1) × FitsAddr a
unfolding parse_rest
parse_rest_source rest bs a n h e = (
  ground arith,
  parse_source-FitsAddr (get_or bs 13 0 / 16) (take rest (drop prefix bs)) a
      (All-take IsByte rest (drop 16 bs) (All-drop IsByte 16 bs h)) (ground arith),
)

-- An address is taken only from a header with the signature, version 2 and the command PROXY (the
-- byte 0x21), all of whose bytes are there; and it fits the widths of its fields.
pub parse_v2-some :
    (bs : List ℕ) (a : SocketAddr) (n : ℕ)
    → All IsByte bs
    → parse_v2 bs ≡ ok (some a, n)
    → (take 12 bs ≡ signature) × (get_or bs 12 0 ≡ 0x21) × (n ≤ length bs) × FitsAddr a
parse_v2-some bs a n h e =
    let (rest, fits, room, total, parsed) = parse_v2_inversion bs (some a) n e in
    let (signed, version) = rest_len_passed (take 16 bs) rest fits in
    let (command, width) = parse_rest_source rest bs a n h parsed in
    (
      sym (take-take 12 16 bs (omega arith)) ∙ signed,
      omega (arith, get_or-take 12 16 bs 0 (omega arith)),
      omega arith,
      width,
    )
