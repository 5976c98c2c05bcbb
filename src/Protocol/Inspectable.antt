-- ===== src/Protocol/Inspectable.antt =====
-- What the classifiers of src/protocol.rs take for a body that can be inspected.
use ferroada.Prelude.{
  ◌≡◌, ◌⊎◌, inl, inr, Bool, true, false, Option, none, some, List, [], ◌∷◌, ◌++◌, arith, refl, ap,
  Bool-cases, list_eq→eq,
}
use ferroada.Text.{
  Text, text, trim, is_empty, split, eq_ignore_ascii_case, to_ascii_lowercase, starts_with,
  ends_with, contains,
}
use ferroada.Protocol.Classify.{
  ProtocolId, tokens_of, encoding_of_token, encoding_of_tokens, or_empty, first_or, is_text_like,
  classify_mime, any_websocket, classify_encoding, classify_content_type, upgrade_is_websocket,
}

-- What the program can undo: no coding, or one of those that are deflated.
abbrev pub IsUndoable : Option Text → Type 0
IsUndoable content_encoding =
    let encoding = trim (or_empty content_encoding) in
    (is_empty encoding ≡ true)
    ⊎ ((eq_ignore_ascii_case encoding (text "identity") ≡ true)
        ⊎ ((token : Text) × (tokens_of (split b',' encoding) ≡ token ∷ [])
            × ((token ≡ text "gzip") ⊎ ((token ≡ text "x-gzip") ⊎ (token ≡ text "deflate")))))

-- The type without its parameters, in small letters.
abbrev pub mime_of : Text → Text
mime_of content_type =
    let lowered = to_ascii_lowercase content_type in trim (first_or lowered (split b';' lowered))

-- Text, JSON, XML, the fields of a form or GraphQL, by a part of the type's name.
abbrev pub IsTextual : Text → Type 0
IsTextual mime =
    (starts_with mime (text "text/") ≡ true)
    ⊎ ((contains mime (text "application/json") ≡ true)
        ⊎ ((ends_with mime (text "+json") ≡ true)
            ⊎ ((contains mime (text "application/xml") ≡ true)
                ⊎ ((ends_with mime (text "+xml") ≡ true)
                    ⊎ ((mime ≡ text "application/x-www-form-urlencoded")
                        ⊎ (contains mime (text "application/graphql") ≡ true))))))

abbrev pub IsReadable : Bool → Option Text → Type 0
IsReadable grpc_policy none = Unit
IsReadable grpc_policy (some content_type) =
    ((starts_with (mime_of content_type) (text "application/grpc") ≡ true) × (grpc_policy ≡ true))
    ⊎ (IsTextual (mime_of content_type)
        × (starts_with (mime_of content_type) (text "application/grpc") ≡ false)
        × (starts_with (mime_of content_type) (text "multipart/") ≡ false))

encoding_of_token-none :
    (token : Text)
    → encoding_of_token token ≡ none
    → (token ≡ text "gzip") ⊎ ((token ≡ text "x-gzip") ⊎ (token ≡ text "deflate"))
unfolding encoding_of_token
encoding_of_token-none token h =
    let gzip = list_eq→eq token (text "gzip") in
    let x_gzip = list_eq→eq token (text "x-gzip") in
    let deflate = list_eq→eq token (text "deflate") in ground (arith, h, gzip, x_gzip, deflate)

encoding_of_tokens-none :
    (tokens : List Text)
    → encoding_of_tokens tokens ≡ none
    → (token : Text) × (tokens ≡ token ∷ []) × (encoding_of_token token ≡ none)
unfolding encoding_of_tokens
encoding_of_tokens-none [] h = cc
encoding_of_tokens-none (token ∷ []) h = (token, refl, h)
encoding_of_tokens-none (a ∷ b ∷ tokens) h = cc

pub classify_encoding-IsUndoable :
    (content_encoding : Option Text)
    → classify_encoding content_encoding ≡ none
    → IsUndoable content_encoding
unfolding classify_encoding
classify_encoding-IsUndoable content_encoding h =
    let encoding = trim (or_empty content_encoding) in
    elim (Bool-cases (is_empty encoding)) [
      | inl blank ↦ inl blank
      | inr there ↦ elim (Bool-cases (eq_ignore_ascii_case encoding (text "identity"))) [
        | inl same ↦ inr (inl same)
        | inr coded ↦
            let found =
              encoding_of_tokens-none (tokens_of (split b',' encoding))
                (ground (arith, h, there, coded)) in
            inr (inr (found.0, found.1, encoding_of_token-none found.0 found.2))
      ]
    ]

is_text_like-IsTextual : (mime : Text) → is_text_like mime ≡ true → IsTextual mime
unfolding is_text_like
is_text_like-IsTextual mime h =
    let form = list_eq→eq mime (text "application/x-www-form-urlencoded") in ground (arith, h, form)

classify_mime-none :
    (mime : Text)
    → classify_mime mime ≡ none
    → IsTextual mime
      × (starts_with mime (text "application/grpc") ≡ false)
      × (starts_with mime (text "multipart/") ≡ false)
unfolding classify_mime
classify_mime-none mime h =
    let like : is_text_like mime ≡ true = ground (arith, h) in
    (is_text_like-IsTextual mime like, ground (arith, h), ground (arith, h))

classify_mime-grpc :
    (mime : Text)
    → classify_mime mime ≡ some ProtocolId.grpc
    → starts_with mime (text "application/grpc") ≡ true
unfolding classify_mime
classify_mime-grpc mime h = ground (arith, h)

-- One of the protocols that are listed.
abbrev pub NamesWebsocket : Text → Type 0
NamesWebsocket upgrade =
    (before : List Text) × (token : Text) × (after : List Text) × (split b',' upgrade
      ≡ before ++ token ∷ after)
    × (eq_ignore_ascii_case (trim token) (text "websocket") ≡ true)

any_websocket_lem :
    (tokens : List Text)
    → any_websocket tokens ≡ true
    → (before : List Text) × (token : Text) × (after : List Text) × (tokens
        ≡ before ++ token ∷ after)
      × (eq_ignore_ascii_case (trim token) (text "websocket") ≡ true)
any_websocket_lem [] h = cc
any_websocket_lem (token ∷ tokens) h =
    elim (Bool-cases (eq_ignore_ascii_case (trim token) (text "websocket"))) [
      | inl here ↦ ([], token, tokens, refl, here)
      | inr other ↦
          let (before, found, after, split_at, same) =
            any_websocket_lem tokens (ground (arith, h, other)) in
          (token ∷ before, found, after, ap (λ ts. token ∷ ts) split_at, same)
    ]

pub IsWebsocket_lem :
    (upgrade : Text)
    → (upgrade_is_websocket upgrade ≡ true) ⊎ (is_empty (trim upgrade) ≡ true)
    → NamesWebsocket upgrade ⊎ (is_empty (trim upgrade) ≡ true)
unfolding upgrade_is_websocket
IsWebsocket_lem upgrade (inl h) = inl (any_websocket_lem (split b',' upgrade) h)
IsWebsocket_lem upgrade (inr blank) = inr blank

pub IsReadable_lem :
    (policy : Bool) (content_type : Option Text)
    → (classify_content_type content_type ≡ none)
      ⊎ ((classify_content_type content_type ≡ some ProtocolId.grpc) × (policy ≡ true))
    → IsReadable policy content_type
unfolding classify_content_type
IsReadable_lem policy none h = tt
IsReadable_lem policy (some t) (inl h) = inr (classify_mime-none (mime_of t) h)
IsReadable_lem policy (some t) (inr (h, p)) = inl (classify_mime-grpc (mime_of t) h, p)
