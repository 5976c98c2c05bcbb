-- ===== src/Text.antt =====
-- Texts as lists of code points, with the methods of `str` that the program calls.
pub mod Trimmed
use Prim.Native.Char.{code}
use Prim.Native.String.{String}
use ferroada.DashMap.{Eq}
use ferroada.Prelude.{
  ℕ, ◌+◌, ◌-◌, leb, ◌==◌, List, [], ◌∷◌, length, take, drop, Bool, true, false, ◌&&◌, ◌||◌, list_eq,
  if◌then◌else◌, Option, some, none, ◌≡◌, ◌↔◌, list_eq→eq, subst, list_eq_self,
}

abbrev pub Text : Type 0
Text = List ℕ

abbrev pub text : String → Text
text String.[] = []
text (String.◌∷◌ c s) = code c ∷ text s

-- The property White_Space of Unicode.
unfoldable pub is_whitespace : ℕ → Bool
is_whitespace c =
    (leb 9 c && leb c 13)
    || c == 32
    || c == 0x85
    || c == 0xA0
    || c == 0x1680
    || (leb 0x2000 c && leb c 0x200A)
    || c == 0x2028
    || c == 0x2029
    || c == 0x202F
    || c == 0x205F
    || c == 0x3000

unfoldable pub is_empty : Text → Bool
is_empty [] = true
is_empty (c ∷ cs) = false

pub trim_start : Text → Text
unfolding is_whitespace
trim_start [] = []
trim_start (c ∷ cs) = let rest = trim_start cs in if is_whitespace c then rest else c ∷ cs

pub trim_end : Text → Text
unfolding is_empty is_whitespace
trim_end [] = []
trim_end (c ∷ cs) =
    let rest = trim_end cs in if is_empty rest && is_whitespace c then [] else c ∷ rest

unfoldable pub trim : Text → Text
unfolding trim_start trim_end
trim t = trim_end (trim_start t)

unfoldable pub lower : ℕ → ℕ
lower c = if leb b'A' c && leb c b'Z' then c + 32 else c

unfoldable pub to_ascii_lowercase : Text → Text
unfolding lower
to_ascii_lowercase [] = []
to_ascii_lowercase (c ∷ cs) = lower c ∷ to_ascii_lowercase cs

unfoldable pub eq_ignore_ascii_case : Text → Text → Bool
unfolding to_ascii_lowercase
eq_ignore_ascii_case a b = list_eq (to_ascii_lowercase a) (to_ascii_lowercase b)

-- `split` at a character: one part more than there are separators.
abbrev pub onto_first : ℕ → List Text → List Text
onto_first c [] = (c ∷ []) ∷ []
onto_first c (part ∷ parts) = (c ∷ part) ∷ parts

unfoldable pub split : ℕ → Text → List Text
split sep [] = [] ∷ []
split sep (c ∷ cs) = let rest = split sep cs in if c == sep then [] ∷ rest else onto_first c rest

unfoldable pub starts_with : Text → Text → Bool
starts_with t prefix = list_eq (take (length prefix) t) prefix

unfoldable pub ends_with : Text → Text → Bool
ends_with t suffix =
    leb (length suffix) (length t) && list_eq (drop (length t - length suffix) t) suffix

unfoldable pub contains : Text → Text → Bool
unfolding starts_with
contains [] part = is_empty part
contains (c ∷ cs) part = let later = contains cs part in starts_with (c ∷ cs) part || later

-- `split_once` at a character, and `strip_prefix`.
abbrev pub in_front : ℕ → Option (Text × Text) → Option (Text × Text)
in_front c none = none
in_front c (some (a, b)) = some (c ∷ a, b)

unfoldable pub split_once : ℕ → Text → Option (Text × Text)
split_once sep [] = none
split_once sep (c ∷ cs) =
    let rest = split_once sep cs in if c == sep then some ([], cs) else in_front c rest

unfoldable pub strip_prefix : Text → Text → Option Text
unfolding starts_with
strip_prefix t prefix = if starts_with t prefix then some (drop (length prefix) t) else none

-- `rsplit_once`: at the last of the separators.
unfoldable pub rsplit_once : ℕ → Text → Option (Text × Text)
rsplit_once sep [] = none
rsplit_once sep (c ∷ cs) = elim (rsplit_once sep cs) [
  | some (a, b) ↦ some (c ∷ a, b)
  | none ↦ if c == sep then some ([], cs) else none
]

-- `.split(',').map(str::trim).filter(|part| !part.is_empty())`
abbrev pub keep_given : List Text → List Text
keep_given [] = []
keep_given (t ∷ ts) = let rest = keep_given ts in if is_empty (trim t) then rest else trim t ∷ rest

pub text_eq_iff : (a b : Text) → (list_eq a b ≡ true) ↔ (a ≡ b)
text_eq_iff a b = (list_eq→eq a b, λ e. subst (λ t. list_eq a t ≡ true) e (list_eq_self a))

instance abbrev pub text_eq : Eq Text
text_eq = record { beq = list_eq; beq_iff = text_eq_iff }
