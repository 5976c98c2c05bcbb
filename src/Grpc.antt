-- ===== src/Grpc.antt =====
-- src/grpc.rs: which methods of a gRPC service a site allows, and for how long a call may run. The
-- pool of descriptors and the decoding of messages are the library's, an interface here. A header's
-- value is ASCII (`to_str`), so that its length in characters is its length in bytes. A duration is a
-- number of nanoseconds.
pub mod Frames
pub mod Timeout
pub mod Rpc
pub mod DeadlineText
pub mod Allowed
pub mod Deadline
mod Tests
use ferroada.Prelude.{
  ℕ, ltb, leb, List, [], ◌∷◌, length, Bool, true, false, not, Option, none, some, list_eq, Result,
  ok, err, if◌then◌else◌,
}
use ferroada.Text.{Text, text, trim, is_empty, eq_ignore_ascii_case}
use ferroada.Grpc.Frames.{FrameFail, iter_frames}
use ferroada.Grpc.Timeout.{parse_grpc_timeout, encode_grpc_timeout}
use ferroada.Grpc.Rpc.{is_grpc_content_type, rpc_from_path, is_reflection, split_rpc}

-- `prost_reflect`: the input of a method of a service, and whether bytes decode as a message.
pub record DescriptorPool : Type 1 where
  pub Message : Type 0
  pub input_of : Text → Text → Option Message
  pub decodes : Message → List ℕ → Bool

pub data GrpcFailure : Type 0 where
  parse_error : GrpcFailure
  method : Text → GrpcFailure

pub data GrpcVerdict : Type 0 where
  skip : GrpcVerdict
  allow : Option Text → GrpcVerdict
  deny : GrpcFailure → GrpcVerdict

pub record GrpcInner : Type 0 where
  pub allow : List Text
  pub max_message_bytes : ℕ
  pub reflection : Bool
  pub deadline : ℕ
  pub require_deadline : Bool

unfoldable pub detail : GrpcFailure → Text
detail GrpcFailure.parse_error = text "ParseError"
detail (GrpcFailure.method rpc) = rpc

-- `HashSet::contains`
unfoldable pub allows : List Text → Text → Bool
allows [] rpc = false
allows (r ∷ rs) rpc = if list_eq r rpc then true else allows rs rpc

-- `.map(str::trim).filter(|value| !value.is_empty())`
abbrev pub given : Option Text → Option Text
given none = none
given (some raw) = if is_empty (trim raw) then none else some (trim raw)

unfoldable pub client_timeout : Text → Option ℕ → GrpcInner → GrpcVerdict
client_timeout rpc none inner = GrpcVerdict.deny (GrpcFailure.method rpc)
client_timeout rpc (some got) inner =
    if ltb inner.deadline got
    then GrpcVerdict.allow (some (encode_grpc_timeout inner.deadline))
    else GrpcVerdict.allow none

unfoldable pub timeout_of : Text → Option Text → GrpcInner → GrpcVerdict
unfolding client_timeout
timeout_of rpc none inner =
    if inner.require_deadline
    then GrpcVerdict.deny (GrpcFailure.method rpc)
    else GrpcVerdict.allow (some (encode_grpc_timeout inner.deadline))
timeout_of rpc (some raw) inner = client_timeout rpc (parse_grpc_timeout raw) inner

unfoldable pub timeout_verdict : Text → Option Text → GrpcInner → GrpcVerdict
timeout_verdict rpc grpc_timeout inner = timeout_of rpc (given grpc_timeout) inner

unfoldable pub check_headers : GrpcInner → Text → Text → Option Text → Option Text → GrpcVerdict
check_headers inner verb path content_type grpc_timeout =
    let rpc = rpc_from_path path in
    if not (is_grpc_content_type content_type)
    then GrpcVerdict.skip
    else if not (eq_ignore_ascii_case verb (text "POST"))
    then GrpcVerdict.deny (GrpcFailure.method rpc)
    else if is_reflection rpc
    then (if not inner.reflection
        then GrpcVerdict.deny (GrpcFailure.method rpc)
        else timeout_verdict rpc grpc_timeout inner)
    else if not (allows inner.allow rpc)
    then GrpcVerdict.deny (GrpcFailure.method rpc)
    else timeout_verdict rpc grpc_timeout inner

module _ (pool : DescriptorPool) where
  open pool use {Message, input_of, decodes}

  -- The loop over the frames.
  unfoldable pub decode_all : Message → List (List ℕ) → GrpcVerdict
  decode_all input [] = GrpcVerdict.allow none
  decode_all input (frame ∷ frames) =
      let rest = decode_all input frames in
      if decodes input frame then rest else GrpcVerdict.deny GrpcFailure.parse_error

  unfoldable pub check_input : Option (Text × Text) → List (List ℕ) → GrpcVerdict
  unfolding decode_all
  check_input none frames = GrpcVerdict.deny GrpcFailure.parse_error
  check_input (some (service, name)) frames = elim (input_of service name) [
    | none ↦ GrpcVerdict.deny GrpcFailure.parse_error
    | some input ↦ decode_all input frames
  ]

  unfoldable pub check_frames : GrpcInner → Text → Result FrameFail (List (List ℕ)) → GrpcVerdict
  unfolding check_input
  check_frames inner rpc (err FrameFail.size) = GrpcVerdict.deny (GrpcFailure.method rpc)
  check_frames inner rpc (err FrameFail.parse) = GrpcVerdict.deny GrpcFailure.parse_error
  check_frames inner rpc (ok frames) =
      if is_reflection rpc
      then (if not inner.reflection
          then GrpcVerdict.deny (GrpcFailure.method rpc)
          else GrpcVerdict.allow none)
      else if not (allows inner.allow rpc)
      then GrpcVerdict.deny (GrpcFailure.method rpc)
      else check_input (split_rpc rpc) frames

  unfoldable pub check_body : GrpcInner → Text → Text → Option Text → List ℕ → GrpcVerdict
  unfolding check_frames
  check_body inner verb path content_type body =
      let rpc = rpc_from_path path in
      if not (is_grpc_content_type content_type)
      then GrpcVerdict.skip
      else if not (eq_ignore_ascii_case verb (text "POST"))
      then GrpcVerdict.deny (GrpcFailure.method rpc)
      else check_frames inner rpc (iter_frames body inner.max_message_bytes)
