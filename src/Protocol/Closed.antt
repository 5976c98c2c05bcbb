-- ===== src/Protocol/Closed.antt =====
-- The default matrix of src/protocol.rs is closed: what a request that must be read whole gets past
-- it with is what the program can inspect.
use ferroada.Prelude.{
  ◌≡◌, ◌⊎◌, inl, inr, Bool, true, Option, none, some, [], ◌∷◌, arith, ◌≤◌, List, All, subst, ◌++◌,
  refl, sym, ap, ◌∙◌, All-append,
}
use ferroada.Text.{Text, trim, is_empty, split}
use ferroada.Protocol.{
  UnsupportedAction, ProtocolMatrix, RequestFacts, ProtocolVerdict, Version, Match, severity,
  matches, evaluate, default, blocked_status, match_version, match_upgrade, match_encoding,
  match_content_type, contextual,
}
use ferroada.Protocol.Severity.{evaluate-IsFirstMostSevere}
use ferroada.Protocol.Inspectable.{
  NamesWebsocket, IsUndoable, IsReadable, IsWebsocket_lem, classify_encoding-IsUndoable,
  IsReadable_lem,
}
use ferroada.Protocol.Classify.{
  ProtocolId, classify_encoding, classify_content_type, upgrade_is_websocket,
}

-- Not severe enough to block.
abbrev pub IsMild : Match → Type 0
IsMild e = severity e.1 ≤ 2

unblocked-IsMild :
    (p : ProtocolId) (a : UnsupportedAction)
    → blocked_status (ProtocolVerdict.unsupported p a) ≡ none
    → severity a ≤ 2
unfolding blocked_status severity
unblocked-IsMild p UnsupportedAction.deny h = cc
unblocked-IsMild p UnsupportedAction.monitor h = omega arith
unblocked-IsMild p UnsupportedAction.bypass_explicit h = omega arith
unblocked-IsMild p UnsupportedAction.route_to_quarantine h = cc

All-imp : {P Q : Match → Type 0} (es : List Match) → ((e : Match) → P e → Q e) → All P es → All Q es
All-imp [] f h = tt
All-imp (e ∷ es) f h = (f e h.0, All-imp es f h.1)

matches-IsMild :
    (m : ProtocolMatrix) (facts : RequestFacts)
    → blocked_status (evaluate m facts) ≡ none
    → All IsMild (matches m facts)
matches-IsMild m facts h = elim (evaluate-IsFirstMostSevere m facts) [
  | inl (_, empty) ↦ subst (All IsMild) (sym empty) tt
  | inr (e, found, (before, after, split, lower, upto)) ↦
      let mild = unblocked-IsMild e.0 e.1 (ap blocked_status (sym found) ∙ h) in
      subst (All IsMild) (sym split) (
        All-append IsMild before (e ∷ after) (All-imp before (λ f l. omega arith) lower)
          (mild, All-imp after (λ f l. omega arith) upto))
]

All-parts : (xs ys : List Match) → All IsMild (xs ++ ys) → All IsMild xs × All IsMild ys
All-parts [] ys h = (tt, h)
All-parts (x ∷ xs) ys h = let (a, b) = All-parts xs ys h.1 in ((h.0, a), b)

mild_version :
    (v : Version)
    → All IsMild (match_version default v)
    → (v ≡ Version.http_11) ⊎ (v ≡ Version.http_2)
unfolding match_version default severity
mild_version Version.http_10 h = absurd (omega (arith, h.0))
mild_version Version.http_11 h = inl refl
mild_version Version.http_2 h = inr refl
mild_version Version.http_3 h = absurd (omega (arith, h.0))
mild_version Version.other h = absurd (omega (arith, h.0))

mild_upgrade :
    (u : Option Text)
    → All IsMild (match_upgrade default u)
    → (upgrade : Text) → u ≡ some upgrade
    → (upgrade_is_websocket upgrade ≡ true) ⊎ (is_empty (trim upgrade) ≡ true)
unfolding match_upgrade default severity
mild_upgrade none h upgrade e = cc
mild_upgrade (some u) h upgrade e = ground (arith, h)

mild_encoding : (p : Option ProtocolId) → All IsMild (match_encoding default true p) → p ≡ none
unfolding match_encoding default severity contextual
mild_encoding none h = refl
mild_encoding (some p) h = ground (arith, h)

mild_content_type :
    (policy : Bool) (p : Option ProtocolId)
    → All IsMild (match_content_type default true policy p)
    → (p ≡ none) ⊎ ((p ≡ some ProtocolId.grpc) × (policy ≡ true))
unfolding match_content_type default severity contextual
mild_content_type policy none h = inl refl
mild_content_type policy (some p) h = ground (arith, h)

-- With the default matrix, a request that must be inspected whole and that is not blocked is HTTP/1.1
-- or HTTP/2. An upgrade that it asks for is blank or names websocket among its protocols. Its content
-- coding is absent, `identity`, or one of `gzip`, `x-gzip` and `deflate`, and its content type is
-- absent, gRPC where the site has a gRPC policy, or one of text, JSON, XML, forms and GraphQL.
pub evaluate-default :
    (facts : RequestFacts)
    → facts.require_complete ≡ true
    → blocked_status (evaluate default facts) ≡ none
    → ((facts.version ≡ Version.http_11) ⊎ (facts.version ≡ Version.http_2))
      × ((upgrade : Text)
          → facts.upgrade ≡ some upgrade
          → NamesWebsocket upgrade ⊎ (is_empty (trim upgrade) ≡ true))
      × IsUndoable facts.content_encoding
      × IsReadable facts.grpc_policy facts.content_type
unfolding matches
evaluate-default facts complete h =
    let vs = match_version default facts.version in
    let us = match_upgrade default facts.upgrade in
    let es =
      match_encoding default facts.require_complete (classify_encoding facts.content_encoding) in
    let cs =
      match_content_type default facts.require_complete facts.grpc_policy
        (classify_content_type facts.content_type) in
    let (vue, c) = All-parts (vs ++ us ++ es) cs (matches-IsMild default facts h) in
    let (vu, e) = All-parts (vs ++ us) es vue in
    let (v, u) = All-parts vs us vu in
    (
      mild_version facts.version v,
      λ upgrade asked. IsWebsocket_lem upgrade (mild_upgrade facts.upgrade u upgrade asked),
      classify_encoding-IsUndoable facts.content_encoding (
          mild_encoding (classify_encoding facts.content_encoding) (
            subst
              (λ b.
                All IsMild (match_encoding default b (classify_encoding facts.content_encoding)))
              complete e)),
      IsReadable_lem facts.grpc_policy facts.content_type (
          mild_content_type facts.grpc_policy (classify_content_type facts.content_type) (
            subst
              (λ b. All IsMild (
                match_content_type default b facts.grpc_policy
                  (classify_content_type facts.content_type)))
              complete c)),
    )
