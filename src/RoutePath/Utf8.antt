-- ===== src/RoutePath/Utf8.antt =====
-- `str::as_bytes` and `String::from_utf8` of Rust's standard library, which src/config.rs uses.
use ferroada.Prelude.{
  ℕ, zero, suc, ◌+◌, ◌-◌, ◌*◌, ◌/◌, ◌%◌, ltb, leb, List, [], ◌∷◌, ◌++◌, not, ◌&&◌, Option, none,
  some, if◌then◌else◌,
}
use ferroada.Text.{Text}

abbrev tail_byte : ℕ → ℕ
tail_byte n = 0x80 + n % 64

unfoldable pub char_bytes : ℕ → List ℕ
char_bytes c =
    if ltb c 0x80
    then c ∷ []
    else if ltb c 0x800
    then (0xC0 + c / 64) ∷ tail_byte c ∷ []
    else if ltb c 0x10000
    then (0xE0 + c / 4096) ∷ tail_byte (c / 64) ∷ tail_byte c ∷ []
    else (0xF0 + c / 262144) ∷ tail_byte (c / 4096) ∷ tail_byte (c / 64) ∷ tail_byte c ∷ []

unfoldable pub as_bytes : Text → List ℕ
unfolding char_bytes
as_bytes [] = []
as_bytes (c ∷ cs) = char_bytes c ++ as_bytes cs

-- `more need least acc`: so many bytes are missing, the character must be at least `least`, and its
-- leading bits are `acc`.
pub data Decoder : Type 0 where
  start bad : Decoder
  more : ℕ → ℕ → ℕ → Decoder

unfoldable pub lead : ℕ → Decoder × Option ℕ
lead b =
    if ltb b 0x80
    then (Decoder.start, some b)
    else if ltb b 0xC0
    then (Decoder.bad, none)
    else if ltb b 0xE0
    then (Decoder.more 0 0x80 (b - 0xC0), none)
    else if ltb b 0xF0
    then (Decoder.more 1 0x800 (b - 0xE0), none)
    else if ltb b 0xF8
    then (Decoder.more 2 0x10000 (b - 0xF0), none)
    else (Decoder.bad, none)

-- Not too short a number for its length, no surrogate, and at most 10FFFF.
unfoldable pub finish : ℕ → ℕ → Decoder × Option ℕ
finish least c =
    if leb least c && not (leb 0xD800 c && leb c 0xDFFF) && leb c 0x10FFFF
    then (Decoder.start, some c)
    else (Decoder.bad, none)

-- One byte: the next state, and the character that it ends.
unfoldable pub next_byte : Decoder → ℕ → Decoder × Option ℕ
unfolding lead finish
next_byte Decoder.start b = lead b
next_byte Decoder.bad b = (Decoder.bad, none)
next_byte (Decoder.more need least acc) b =
    if not (leb 0x80 b && ltb b 0xC0) then (Decoder.bad, none) else elim need [
      | zero ↦ finish least (acc * 64 + (b - 0x80))
      | suc n ↦ (Decoder.more n least (acc * 64 + (b - 0x80)), none)
    ]

abbrev pub emit : Option ℕ → Option Text → Option Text
emit none rest = rest
emit (some c) none = none
emit (some c) (some cs) = some (c ∷ cs)

unfoldable pub utf8_from : Decoder → List ℕ → Option Text
unfolding next_byte
utf8_from Decoder.start [] = some []
utf8_from _ [] = none
utf8_from d (b ∷ bs) =
    let step = next_byte d b in let rest = utf8_from step.0 bs in emit step.1 rest

unfoldable pub from_utf8 : List ℕ → Option Text
from_utf8 bytes = utf8_from Decoder.start bytes
