-- ===== src/ClientIp/Spoofing.antt =====
-- What a client writes in front of the addresses that its proxies append to `X-Forwarded-For` does not
-- change the address that src/client_ip.rs finds.
use ferroada.Prelude.{
  List, [], ◌∷◌, ◌++◌, ◌≡◌, refl, ap, sym, ◌∙◌, arith, Bool-cases, inl, inr, Option, none, some,
  false, Option-cases, ◌==◌, ℕ, subst, Bool, if◌then◌else◌, ◌&&◌, not,
}
use mathlib.Core.List.{reverse, reverse-append}
use ferroada.Text.{Text, split, onto_first, keep_given}
use ferroada.Net.{IpAddr}
use ferroada.ClientIp.{
  TrustedProxies, contains, walk, walk_xff, resolve, resolve_sources, walk_forwarded,
  default_config, step,
}
use ferroada.ClientIp.Forwarded.{
  parse_single_ip, forwarded_pieces, split_forwarded_elements, parse_forwarded_for_param,
}

pub split-nonempty : (sep : ℕ) (t : Text) → (p : Text) × (ps : List Text) × (split sep t ≡ p ∷ ps)
unfolding split
split-nonempty sep [] = ([], [], refl)
split-nonempty sep (c ∷ cs) = elim (Bool-cases (c == sep)) [
  | inl e ↦ ([], split sep cs, ground (arith, e))
  | inr e ↦ let rest = split-nonempty sep cs in (c ∷ rest.0, rest.1, ground (arith, e, rest.2))
]

onto_first-append :
    (c : ℕ) (xs ys : List Text) (p : Text) (ps : List Text)
    → xs ≡ p ∷ ps
    → onto_first c (xs ++ ys) ≡ onto_first c xs ++ ys
onto_first-append c [] ys p ps e = cc
onto_first-append c (x ∷ xs) ys p ps e = refl

-- The parts of two texts with a separator between them.
pub split-append : (sep : ℕ) (a b : Text) → split sep (a ++ sep ∷ b) ≡ split sep a ++ split sep b
unfolding split
split-append sep [] b = ground arith
split-append sep (c ∷ cs) b =
    let rest = split-nonempty sep cs in
    ground (
      arith,
      split-append sep cs b,
      onto_first-append c (split sep cs) (split sep b) rest.0 rest.1 rest.2,
    )

walk-untrusted :
    (t : TrustedProxies) (f : Text → Option IpAddr) (ip : IpAddr) (vs : List Text)
    → contains t ip ≡ false
    → walk t f ip vs ≡ ip
unfolding walk
walk-untrusted t f ip [] h = refl
walk-untrusted t f ip (v ∷ vs) h = ground (arith, h)

-- An untrusted address that the walk finds ends it.
pub walk-append :
    (t : TrustedProxies) (f : Text → Option IpAddr) (ip c : IpAddr) (vs ws : List Text)
    → walk t f ip vs ≡ c
    → contains t c ≡ false
    → walk t f ip (vs ++ ws) ≡ c
unfolding walk
walk-append t f ip c [] ws e h =
    walk-untrusted t f ip ws (subst (λ x. contains t x ≡ false) (sym e) h) ∙ e
walk-append t f ip c (v ∷ vs) ws e h = elim (Bool-cases (contains t ip)) [
  | inr out ↦ ground (arith, out, e)
  | inl trusted ↦ elim (Option-cases (f v)) [
    | inl bad ↦ absurd (ground (arith, trusted, bad, e, h))
    | inr (next, read) ↦ ground (arith, trusted, read, e, h, walk-append t f next c vs ws)
  ]
]

-- The loop over the parts of two texts, from the last part.
walk-reverse-append :
    (t : TrustedProxies) (f : Text → Option IpAddr) (ip c : IpAddr) (vs ws parts : List Text)
    → parts ≡ ws ++ vs
    → walk t f ip (reverse vs) ≡ c
    → contains t c ≡ false
    → walk t f ip (reverse parts) ≡ c
walk-reverse-append t f ip c vs ws parts e w h =
    ap (λ l. walk t f ip (reverse l)) e
    ∙ ap (walk t f ip) (reverse-append ws vs)
    ∙ walk-append t f ip c (reverse vs) (reverse ws) w h

pub walk_xff-append :
    (t : TrustedProxies) (ip c : IpAddr) (spoof value : Text)
    → walk_xff t ip (some value) ≡ c
    → contains t c ≡ false
    → walk_xff t ip (some (spoof ++ b',' ∷ value)) ≡ c
unfolding walk_xff
walk_xff-append t ip c spoof value w h = elim (Bool-cases (contains t ip)) [
  | inr out ↦ ground (arith, out, w)
  | inl trusted ↦ ground (
    arith,
    trusted,
    w,
    h,
    walk-reverse-append t (λ (v : Text). parse_single_ip v) ip c (split b',' value)
        (split b',' spoof) (split b',' (spoof ++ b',' ∷ value)) (split-append b',' spoof value),
  )
]

-- Whether a text leaves a quote open, that begins with one open or not.
unfoldable pub leaves_open : Bool → Text → Bool
leaves_open quoted [] = quoted
leaves_open quoted (c ∷ cs) = leaves_open (if c == b'"' then not quoted else quoted) cs

pieces-nonempty :
    (q : Bool) (t : Text) → (p : Text) × (ps : List Text) × (forwarded_pieces q t ≡ p ∷ ps)
unfolding forwarded_pieces
pieces-nonempty q [] = ([], [], refl)
pieces-nonempty q (c ∷ cs) = elim (Bool-cases (c == b',' && not q)) [
  | inl e ↦ ([], forwarded_pieces (if c == b'"' then not q else q) cs, ground (arith, e))
  | inr e ↦
      let rest = pieces-nonempty (if c == b'"' then not q else q) cs in
      (c ∷ rest.0, rest.1, ground (arith, e, rest.2))
]

pieces-append :
    (q : Bool) (a b : Text)
    → leaves_open q a ≡ false
    → forwarded_pieces q (a ++ b',' ∷ b) ≡ forwarded_pieces q a ++ forwarded_pieces false b
unfolding forwarded_pieces leaves_open
pieces-append q [] b h = ground (arith, h)
pieces-append q (c ∷ cs) b h = elim (Bool-cases (c == b',' && not q)) [
  | inl e ↦ ground (arith, e, pieces-append (if c == b'"' then not q else q) cs b h)
  | inr e ↦
      let next : Bool = if c == b'"' then not q else q in
      let rest = pieces-nonempty next cs in
      ground (
        arith,
        e,
        pieces-append next cs b h,
        onto_first-append c (forwarded_pieces next cs) (forwarded_pieces false b) rest.0 rest.1
            rest.2,
      )
]

keep_given-append : (xs ys : List Text) → keep_given (xs ++ ys) ≡ keep_given xs ++ keep_given ys
keep_given-append [] ys = refl
keep_given-append (x ∷ xs) ys = ground (arith, keep_given-append xs ys)

-- An address that `resolve` finds, and that is no trusted proxy's, is found too when a client has
-- put any text before the header's value.
pub resolve-append :
    (t : TrustedProxies) (peer : Option IpAddr) (c : IpAddr) (spoof value : Text)
    → resolve t peer (some value) ≡ some c
    → contains t c ≡ false
    → resolve t peer (some (spoof ++ b',' ∷ value)) ≡ some c
unfolding resolve resolve_sources default_config step
resolve-append t none c spoof value e h = absurd (cc)
resolve-append t (some ip) c spoof value e h = ap some (walk_xff-append t ip c spoof value (cc) h)

-- In `Forwarded` too, as long as the text before the value leaves no quote open.
pub walk_forwarded-append :
    (t : TrustedProxies) (ip c : IpAddr) (spoof value : Text)
    → leaves_open false spoof ≡ false
    → walk_forwarded t ip (some value) ≡ c
    → contains t c ≡ false
    → walk_forwarded t ip (some (spoof ++ b',' ∷ value)) ≡ c
unfolding walk_forwarded split_forwarded_elements
walk_forwarded-append t ip c spoof value closed w h = elim (Bool-cases (contains t ip)) [
  | inr out ↦ ground (arith, out, w)
  | inl trusted ↦ ground (
    arith,
    trusted,
    w,
    h,
    walk-reverse-append t parse_forwarded_for_param ip c (split_forwarded_elements value)
        (split_forwarded_elements spoof) (split_forwarded_elements (spoof ++ b',' ∷ value))
        (ap keep_given (pieces-append false spoof value closed)
          ∙ keep_given-append (forwarded_pieces false spoof) (forwarded_pieces false value)),
  )
]
