-- ===== src/Shield/Framing.antt =====
-- `check_smuggling` of src/shield.rs: how a request says where its body ends.
use ferroada.Prelude.{
  ℕ, ltb, Bool, true, false, not, ◌&&◌, ◌||◌, Option, none, some, list_eq, if◌then◌else◌, ◌≡◌, ◌≤◌,
  ◌⊎◌, inl, inr, arith, Bool-cases, list_eq→eq, ◌↔◌, subst, refl, sym,
}
use ferroada.Text.{Text, text, trim, to_ascii_lowercase}
use ferroada.Shield.{ShieldVerdict}

unfoldable pub is_known_encoding : Text → Bool
is_known_encoding te =
    let te_lower = to_ascii_lowercase (trim te) in
    list_eq te_lower (text "chunked") || list_eq te_lower (text "identity")

-- The normalized view of the transfer encoding.
unfoldable pub check_encoding : Bool → Option Text → ShieldVerdict
unfolding is_known_encoding
check_encoding has_content_length none = ShieldVerdict.allow
check_encoding has_content_length (some te) =
    if has_content_length
    then ShieldVerdict.block_smuggling
    else if not (is_known_encoding te)
    then ShieldVerdict.block_smuggling
    else ShieldVerdict.allow

unfoldable pub check_smuggling : Bool → ℕ → ℕ → Option Text → ShieldVerdict
unfolding check_encoding
check_smuggling has_content_length content_length_count transfer_encoding_count transfer_encoding =
    if ltb 1 content_length_count
    then ShieldVerdict.block_smuggling
    else if ltb 1 transfer_encoding_count
    then ShieldVerdict.block_smuggling
    else if has_content_length && ltb 0 transfer_encoding_count
    then ShieldVerdict.block_smuggling
    else check_encoding has_content_length transfer_encoding

abbrev pub IsKnownEncoding : Text → Type 0
IsKnownEncoding te =
    (to_ascii_lowercase (trim te) ≡ text "chunked")
    ⊎ (to_ascii_lowercase (trim te) ≡ text "identity")

-- What the guards let through, with the counts as they come. Shield.RawHead has what this means for
-- the head that they are counted in.
abbrev pub IsPassed : Bool → ℕ → ℕ → Option Text → Type 0
IsPassed cl n m none = (n ≤ 1) × (m ≤ 1) × ((cl ≡ false) ⊎ (m ≡ 0))
IsPassed cl n m (some te) = (n ≤ 1) × (m ≤ 1) × (cl ≡ false) × IsKnownEncoding te

is_known_encoding_iff : (te : Text) → (is_known_encoding te ≡ true) ↔ IsKnownEncoding te
unfolding is_known_encoding
is_known_encoding_iff te =
    let lower : Text = to_ascii_lowercase (trim te) in
    (
      λ h. elim (Bool-cases (list_eq lower (text "chunked"))) [
        | inl e ↦ inl (list_eq→eq lower (text "chunked") e)
        | inr e ↦ inr (list_eq→eq lower (text "identity") (ground (arith, h, e)))
      ],
      λ k. elim k [
        | inl e ↦
            let same = subst (λ t. list_eq t (text "chunked") ≡ true) (sym e) refl in
            ground (arith, same)
        | inr e ↦
            let same = subst (λ t. list_eq t (text "identity") ≡ true) (sym e) refl in
            ground (arith, same)
      ],
    )

encoded_iff :
    (cl : Bool) (n m : ℕ) (te : Text)
    → (check_smuggling cl n m (some te) ≡ ShieldVerdict.allow)
      ↔ ((n ≤ 1) × (m ≤ 1) × (cl ≡ false) × (is_known_encoding te ≡ true))
unfolding check_smuggling check_encoding
encoded_iff true n m te = ground arith
encoded_iff false n m te = ground arith

pub check_smuggling_iff :
    (cl : Bool) (n m : ℕ) (te : Option Text)
    → (check_smuggling cl n m te ≡ ShieldVerdict.allow) ↔ IsPassed cl n m te
unfolding check_smuggling check_encoding
check_smuggling_iff true n m none = ground arith
check_smuggling_iff false n m none =
    (λ h. (ground (arith, h), ground (arith, h), inl refl), λ h. ground (arith, h))
check_smuggling_iff cl n m (some te) =
    let e = encoded_iff cl n m te in
    let k = is_known_encoding_iff te in
    (λ h. let p = e.0 h in (p.0, p.1, p.2, k.0 p.3), λ h. e.1 (h.0, h.1, h.2, k.1 h.3))
