-- ===== src/Grpc/Frames.antt =====
-- The messages of a gRPC body, as `iter_frames` of src/grpc.rs reads them.
pub mod Exact
use ferroada.Prelude.{
  ℕ, zero, suc, ltb, ◌==◌, not, List, [], ◌∷◌, ◌++◌, length, take, drop, Bool, Result, ok, err,
  ◌>>=◌, if◌then◌else◌,
}
use ferroada.Net.{from_be_bytes, to_be_bytes}

pub data FrameFail : Type 0 where
  parse size : FrameFail

-- `fuel` bounds the number of messages. Each takes five bytes at least.
unfoldable pub frames_from : ℕ → ℕ → List ℕ → Result FrameFail (List (List ℕ))
frames_from fuel max_size [] = ok []
frames_from (suc fuel) max_size (compressed ∷ b₁ ∷ b₂ ∷ b₃ ∷ b₄ ∷ rest) =
    let claimed = from_be_bytes (b₁ ∷ b₂ ∷ b₃ ∷ b₄ ∷ []) in
    let later = frames_from fuel max_size (drop claimed rest) in
    if ltb max_size claimed
    then err FrameFail.size
    else if not (compressed == 0)
    then err FrameFail.parse
    else if ltb (length rest) claimed
    then err FrameFail.parse
    else later >>= λ frames. ok (take claimed rest ∷ frames)
frames_from _ max_size _ = err FrameFail.parse

unfoldable pub iter_frames : List ℕ → ℕ → Result FrameFail (List (List ℕ))
iter_frames body max_size = frames_from (length body) max_size body

-- The framing that the code reads: a zero byte, the length in four bytes, and the message.
pub encode_frames : List (List ℕ) → List ℕ
encode_frames [] = []
encode_frames (m ∷ ms) = 0 ∷ to_be_bytes 4 (length m) ++ m ++ encode_frames ms
