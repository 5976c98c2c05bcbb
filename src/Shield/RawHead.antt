-- ===== src/Shield/RawHead.antt =====
-- How src/proxy.rs counts the headers that say where a body ends, in the bytes of a request's head as
-- the library has kept them, and what check_smuggling of src/shield.rs then allows.
use ferroada.Prelude.{
  ℕ, ◌+◌, ◌-◌, ◌≤◌, ltb, List, [], ◌∷◌, length, take, drop, All, Bool, false, ◌||◌, Option, none,
  some, if◌then◌else◌, ◌≡◌, ◌↔◌, arith, Bool-cases, inl, inr,
}
use ferroada.Text.{Text, text, split, split_once, is_empty, ends_with, eq_ignore_ascii_case}
use ferroada.Shield.{ShieldVerdict}
use ferroada.Shield.Framing.{check_smuggling, IsKnownEncoding, check_smuggling_iff}

-- `strip_suffix(b"\r")`
unfoldable pub strip_cr : Text → Text
strip_cr line = if ends_with line (text "\r") then take (length line - 1) line else line

abbrev pub is_length : Text → Bool
is_length name = eq_ignore_ascii_case name (text "content-length")

abbrev pub is_encoding : Text → Bool
is_encoding name = eq_ignore_ascii_case name (text "transfer-encoding")

-- What a line adds to the two counts.
unfoldable pub added_by : Option (Text × Text) → ℕ × ℕ
added_by none = (0, 0)
added_by (some (name, value)) =
    if is_length name then (1, 0) else if is_encoding name then (0, 1) else (0, 0)

unfoldable pub counts_of : List Text → ℕ × ℕ
unfolding strip_cr added_by
counts_of [] = (0, 0)
counts_of (line ∷ lines) =
    let rest = counts_of lines in
    let own = added_by (split_once b':' (strip_cr line)) in
    if is_empty (strip_cr line) then (0, 0) else (own.0 + rest.0, own.1 + rest.1)

-- The first line is that of the request.
unfoldable pub raw_framing_header_counts : Text → ℕ × ℕ
unfolding counts_of
raw_framing_header_counts raw_headers = counts_of (drop 1 (split b'\n' raw_headers))

-- The normalized view of the transfer encoding is an argument of its own.
unfoldable pub check_framing : Text → Option Text → ShieldVerdict
unfolding raw_framing_header_counts
check_framing raw_headers transfer_encoding =
    let counts = raw_framing_header_counts raw_headers in
    check_smuggling (ltb 0 counts.0) counts.0 counts.1 transfer_encoding

abbrev pub and_framing : Option (Text × Text) → List Text → List Text
and_framing none names = names
and_framing (some (name, value)) names =
    if is_length name || is_encoding name then name ∷ names else names

-- The names of the headers up to the blank line that say where the body ends.
pub framing_names : List Text → List Text
framing_names [] = []
framing_names (line ∷ lines) =
    let names = framing_names lines in
    if is_empty (strip_cr line) then [] else and_framing (split_once b':' (strip_cr line)) names

abbrev pub framing_of : Text → List Text
framing_of raw_headers = framing_names (drop 1 (split b'\n' raw_headers))

-- One header at most; and where a transfer encoding is seen, it is not a length and the encoding is
-- one that the program knows.
abbrev pub HasOneFraming : Text → Option Text → Type 0
HasOneFraming raw_headers none = length (framing_of raw_headers) ≤ 1
HasOneFraming raw_headers (some te) =
    (length (framing_of raw_headers) ≤ 1)
    × All (λ name. is_length name ≡ false) (framing_of raw_headers)
    × IsKnownEncoding te

abbrev IsCount : ℕ × ℕ → List Text → Type 0
IsCount counts names =
    (counts.0 + counts.1 ≡ length names)
    × ((counts.0 ≡ 0) ↔ All (λ name. is_length name ≡ false) names)

and_framing-IsCount :
    (line : Option (Text × Text)) (counts : ℕ × ℕ) (names : List Text)
    → IsCount counts names
    → IsCount ((added_by line).0 + counts.0, (added_by line).1 + counts.1) (and_framing line names)
unfolding added_by
and_framing-IsCount none counts names h = ground (arith, h)
and_framing-IsCount (some (name, value)) counts names h = elim (Bool-cases (is_length name)) [
  | inl here ↦ ground (arith, h, here)
  | inr other ↦ elim (Bool-cases (is_encoding name)) [
    | inl there ↦ ground (arith, h, other, there)
    | inr neither ↦ ground (arith, h, other, neither)
  ]
]

counts_of-IsCount : (lines : List Text) → IsCount (counts_of lines) (framing_names lines)
unfolding counts_of framing_names
counts_of-IsCount [] = ground arith
counts_of-IsCount (line ∷ lines) =
    let rest = counts_of-IsCount lines in
    let more =
      and_framing-IsCount (split_once b':' (strip_cr line)) (counts_of lines) (framing_names lines)
        rest in
    elim (Bool-cases (is_empty (strip_cr line))) [
      | inl blank ↦ ground (arith, blank)
      | inr there ↦ ground (arith, there, more)
    ]

-- A request is allowed exactly when at most one header of its head, up to the blank line, says where
-- its body ends, be it a length or an encoding; and where the normalized view has a transfer encoding,
-- that header is no length and the encoding is `chunked` or `identity` up to white space around it
-- and case.
pub check_framing_iff :
    (raw_headers : Text) (te : Option Text)
    → (check_framing raw_headers te ≡ ShieldVerdict.allow) ↔ HasOneFraming raw_headers te
unfolding check_framing raw_framing_header_counts
check_framing_iff raw_headers none =
    let counts = raw_framing_header_counts raw_headers in
    let c = counts_of-IsCount (drop 1 (split b'\n' raw_headers)) in
    let g = check_smuggling_iff (ltb 0 counts.0) counts.0 counts.1 none in ground (arith, c, g)
check_framing_iff raw_headers (some te) =
    let counts = raw_framing_header_counts raw_headers in
    let c = counts_of-IsCount (drop 1 (split b'\n' raw_headers)) in
    let g = check_smuggling_iff (ltb 0 counts.0) counts.0 counts.1 (some te) in ground (arith, c, g)
