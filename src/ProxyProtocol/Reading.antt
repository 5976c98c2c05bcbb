-- ===== src/ProxyProtocol/Reading.antt =====
-- Reading the header off a stream takes the bytes of the header, and what it returns is what
-- `parse_v2` says of all the bytes.
use ferroada.Prelude.{
  ℕ, zero, suc, ◌+◌, ◌≡◌, ap, ◌>>=◌, inl, inr, List, Option, leb, if◌then◌else◌, ltb, take, length,
  ok, Result, true, [], arith, drop, err, false, Result-cases, ◌∙◌, ok-injective, sym, ◌≤◌, ◌<◌,
  leb→le, Bool-cases, le→leb, length-drop, take-add, drop-drop, Bool, none, some, bind-eq-ok,
}
use ferroada.ProxyProtocol.Parsing.{parse_v2-take, parse_v2_inversion}
use ferroada.ProxyProtocol.{
  read_exact, rest_len_from_prefix, SocketAddr, ProxyProtocolError, parse_v2, read_v2,
  consume_and_apply, truncated, consume_v2, apply_peer, Stream,
}

read_body :
    (rest : ℕ) (s : List ℕ)
    → (if ltb 0 rest then read_exact rest s else ok ([], s)) ≡ read_exact rest s
unfolding read_exact
read_body zero s = ground arith
read_body (suc rest) s = ground arith

read_exact_enough : (n : ℕ) (s : List ℕ) → n ≤ length s → read_exact n s ≡ ok (take n s, drop n s)
unfolding read_exact
read_exact_enough n s h = rw (le→leb n (length s) h)

read_exact_short : (n : ℕ) (s : List ℕ) → length s < n → read_exact n s ≡ err truncated
unfolding read_exact
read_exact_short n s h = ground arith

-- The rest of the stream behind a header of `n` bytes.
abbrev pub behind :
    List ℕ → Option SocketAddr × ℕ → Result ProxyProtocolError (Option SocketAddr × List ℕ)
behind bs (source, n) = ok (source, drop n bs)

abbrev left_with :
    List ℕ → Option SocketAddr × ℕ → Result ProxyProtocolError (Option SocketAddr × List ℕ)
left_with left (source, _) = ok (source, left)

left_with-eq-behind :
    (bs : List ℕ) (rest : ℕ)
    → rest_len_from_prefix (take 16 bs) ≡ ok rest
    → (parse_v2 bs >>= left_with (drop (16 + rest) bs)) ≡ (parse_v2 bs >>= behind bs)
left_with-eq-behind bs rest fits = elim (Result-cases (parse_v2 bs)) [
  | inl (e, refused) ↦ rw refused
  | inr ((source, n), accepted) ↦
      let (rest', fits', _, total, _) = parse_v2_inversion bs source n accepted in
      let same : n ≡ 16 + rest = total ∙ ap (◌+◌ 16) (ok-injective (sym fits' ∙ fits)) in
      rw (accepted, same)
]

module _ (bs : List ℕ) (long : leb 16 (length bs) ≡ true) where
  read_v2_refused :
      (e : ProxyProtocolError)
      → rest_len_from_prefix (take 16 bs) ≡ err e
      → read_v2 bs ≡ (parse_v2 bs >>= behind bs)
  unfolding read_v2 read_exact parse_v2
  read_v2_refused e refused = rw (long, refused)

  read_v2_cut :
      (rest : ℕ)
      → rest_len_from_prefix (take 16 bs) ≡ ok rest
      → leb (16 + rest) (length bs) ≡ false
      → read_v2 bs ≡ (parse_v2 bs >>= behind bs)
  unfolding read_v2 parse_v2
  read_v2_cut rest fits cut = rw (
    read_exact_enough 16 bs (leb→le 16 (length bs) long),
    fits,
    read_body rest (drop 16 bs),
    read_exact_short rest (drop 16 bs) (ground (arith, length-drop 16 bs)),
    long,
    cut,
  )

  read_v2_whole :
      (rest : ℕ)
      → rest_len_from_prefix (take 16 bs) ≡ ok rest
      → leb (16 + rest) (length bs) ≡ true
      → read_v2 bs ≡ (parse_v2 bs >>= behind bs)
  unfolding read_v2
  read_v2_whole rest fits whole =
      rw
        (
          read_exact_enough 16 bs (leb→le 16 (length bs) long),
          fits,
          read_body rest (drop 16 bs),
          read_exact_enough rest (drop 16 bs) (ground (arith, length-drop 16 bs)),
          take-add 16 rest bs,
          drop-drop 16 rest bs,
          parse_v2-take bs rest fits (leb→le _ _ whole),
        )
        (left_with-eq-behind bs rest fits)

-- Reading off a stream agrees with `parse_v2` of all that the stream will bring: the same error, or
-- the same source address, with exactly the bytes behind the header left unread.
pub read_v2-eq-parse_v2 : (bs : List ℕ) → read_v2 bs ≡ (parse_v2 bs >>= behind bs)
unfolding read_v2 read_exact parse_v2
read_v2-eq-parse_v2 bs = elim (Bool-cases (leb 16 (length bs))) [
  | inr short ↦ rw short
  | inl long ↦ elim (Result-cases (rest_len_from_prefix (take 16 bs))) [
    | inl (e, refused) ↦ read_v2_refused bs long e refused
    | inr (rest, fits) ↦ elim (Bool-cases (leb (16 + rest) (length bs))) [
      | inl whole ↦ read_v2_whole bs long rest fits whole
      | inr cut ↦ read_v2_cut bs long rest fits cut
    ]
  ]
]

-- The connection after the header, whatever arrived and whenever: a
-- success leaves the bytes behind the header, keeps a local address that was known, and changes the
-- peer exactly if the header carried a source.
pub consume_and_apply_lem :
    (elapsed : Bool) (stream stream' : Stream)
    → consume_and_apply elapsed stream ≡ ok stream'
    → (source : Option SocketAddr) × (n : ℕ) × (parse_v2 stream.unread ≡ ok (source, n))
      × (stream'.unread ≡ drop n stream.unread)
      × (stream'.digest.local_addr ≡ stream.digest.local_addr)
      × (stream'.digest.peer_addr
          ≡ (elim source [ none ↦ stream.digest.peer_addr | some addr ↦ some addr ]))
unfolding consume_and_apply consume_v2 apply_peer
consume_and_apply_lem true stream stream' e = cc
consume_and_apply_lem false stream stream' e =
    let ((source, unread), read, applied) = bind-eq-ok (read_v2 stream.unread) _ e in
    let ((source', n), parsed, same) =
      bind-eq-ok (parse_v2 stream.unread) (behind stream.unread)
        (sym (read_v2-eq-parse_v2 _) ∙ read) in
    (source', n, parsed, ground arith, ground arith, ground arith)
