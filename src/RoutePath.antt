-- ===== src/RoutePath.antt =====
-- `canonical_route_path` of src/config.rs: the form of a path in which routes are compared. The
-- bytes of a percent-encoded path are decoded until nothing changes, and `.` and `..` resolved.
pub mod Utf8
pub mod Decoding
pub mod Canonical
mod Tests
use ferroada.Prelude.{
  ℕ, zero, suc, ◌+◌, ◌-◌, ◌*◌, leb, ◌==◌, List, [], ◌∷◌, ◌++◌, Bool, true, false, not, ◌&&◌, ◌||◌,
  Option, none, some, list_eq, if◌then◌else◌,
}
use ferroada.Text.{Text, text, split}
use ferroada.RoutePath.Utf8.{as_bytes, from_utf8}

-- `?` on an `Option`.
infixl 5 ◌>>?◌
abbrev pub ◌>>?◌ {ℓ κ} : {A : Type ℓ} {B : Type κ} → Option A → (A → Option B) → Option B
none >>? next = none
some x >>? next = next x

unfoldable pub hex_value : ℕ → Option ℕ
hex_value value =
    if leb b'0' value && leb value b'9'
    then some (value - b'0')
    else if leb b'a' value && leb value b'f'
    then some (value - b'a' + 10)
    else if leb b'A' value && leb value b'F'
    then some (value - b'A' + 10)
    else none

-- Where the loop is: between two characters, or behind a `%`, or behind a `%` and its high digit.
pub data Position : Type 0 where
  plain percent : Position
  high : ℕ → Position

abbrev pub cons_to : ℕ → Option (List ℕ) → Option (List ℕ)
cons_to b none = none
cons_to b (some bs) = some (b ∷ bs)

unfoldable pub decode_from : Position → List ℕ → Option (List ℕ)
unfolding hex_value
decode_from Position.plain [] = some []
decode_from Position.percent [] = none
decode_from (Position.high h) [] = none
decode_from Position.plain (b ∷ bs) =
    let rest = decode_from (if b == b'%' then Position.percent else Position.plain) bs in
    if b == b'%' then rest else cons_to b rest
decode_from Position.percent (b ∷ bs) = hex_value b >>? λ h. decode_from (Position.high h) bs
decode_from (Position.high h) (b ∷ bs) =
    hex_value b >>? λ l. cons_to (h * 16 + l) (decode_from Position.plain bs)

unfoldable pub percent_decode : List ℕ → Option (List ℕ)
percent_decode input = decode_from Position.plain input

-- The loop of at most `n` rounds: what it ends with, and whether that is stable.
unfoldable pub decode_rounds : ℕ → List ℕ → Option (List ℕ × Bool)
decode_rounds zero decoded = some (decoded, false)
decode_rounds (suc n) decoded = percent_decode decoded >>? λ next.
    if list_eq next decoded then some (decoded, true) else decode_rounds n next

unfoldable pub check_stable : List ℕ × Bool → Option (List ℕ)
check_stable (decoded, true) = some decoded
check_stable (decoded, false) =
    percent_decode decoded >>? λ next. if list_eq next decoded then some decoded else none

-- `replace('\\', "/")`
unfoldable pub slashes : Text → Text
slashes [] = []
slashes (c ∷ cs) = (if c == 92 then 47 else c) ∷ slashes cs

-- `Vec::pop`
unfoldable pub pop : List Text → List Text
pop [] = []
pop (s ∷ []) = []
pop (s ∷ t ∷ ts) = s ∷ pop (t ∷ ts)

unfoldable pub push_segment : List Text → Text → List Text
push_segment segments segment =
    if list_eq segment [] || list_eq segment (text ".")
    then segments
    else if list_eq segment (text "..")
    then pop segments
    else segments ++ segment ∷ []

unfoldable pub resolve : List Text → List Text → List Text
resolve segments [] = segments
resolve segments (s ∷ ss) = resolve (push_segment segments s) ss

-- `join("/")`
unfoldable pub join : List Text → Text
join [] = []
join (s ∷ []) = s
join (s ∷ t ∷ ts) = s ++ 47 ∷ join (t ∷ ts)

unfoldable pub canonical_route_path : Text → Option Text
canonical_route_path path = decode_rounds 8 (as_bytes path) >>? λ looped.
    check_stable looped >>? λ decoded.
    from_utf8 decoded >>? λ t. some (47 ∷ join (resolve [] (split 47 (slashes t))))
