-- ===== src/Lib.antt =====
-- Models and theorems for FerroAda, a reverse proxy in Rust that filters HTTP before it reaches the
-- application. A connection passes the limits of src/connection.rs and may announce its real peer by
-- a PROXY protocol header (src/proxy_protocol.rs). Each of its requests is identified
-- (src/client_ip.rs), checked for its form (src/shield.rs), counted (src/rate_limit.rs) and placed in
-- the matrix of protocols (src/protocol.rs). Where its body must be inspected, it is held in the spool
-- (src/spool.rs), read as calls of gRPC (src/grpc.rs) or as queries of GraphQL (src/graphql.rs), and
-- replayed to the origin that src/origin.rs picks. The proxy itself (src/proxy.rs) calls these.
--
-- Files and what they model:
--   ProxyProtocol   src/proxy_protocol.rs: parse_v2, read_v2, consume_and_apply, encode_v2 over lists
--                   of bytes. A stream is the bytes that are left on it; the deadline of the read is
--                   a Boolean argument. Parsing, RoundTrip and Reading hold the proofs.
--   Spool           src/spool.rs: the handle of a body with push, inspect_bytes and next_replay_chunk,
--                   and its drop. Spool.Budget has the shared counters. Files are an interface,
--                   Spool.Files.FileSystem, whose laws are those of a file: reads return a
--                   prefix of what is behind the cursor, and any operation may fail.
--                   Spool.Accounting.System runs all handles of a process over shared budgets.
--   Connection.Rate src/connection.rs, ConnectionRateFilter: check, evict_expired. History states
--                   what calls lead to and compares it with the attempts that were accepted.
--   Connection.Active  src/connection.rs, ActiveConnectionState: reserve_pending, activate, the drop
--                   of a guard, and eviction.
--   RateLimit       src/rate_limit.rs: RateLimiter with check, evict_expired, maybe_sweep,
--                   enforce_cap and shrink_to_cap; RateLimit.Key has the keys of an identity.
--   ClientIp        src/client_ip.rs: TrustedProxies with parse, resolve and resolve_sources, and
--                   ClientIpConfig; ClientIp.Network has the masks, ClientIp.Forwarded the reading of
--                   the headers, ClientIp.Identity the identity of a client.
--   Shield          src/shield.rs: the checks of a request's head; Shield.Framing has check_smuggling,
--                   Shield.RawHead its counts of headers from src/proxy.rs, raw_framing_header_counts,
--                   and Shield.Authority the match of Host and authority.
--   Origin          src/origin.rs: pick, has_ready, record_success and record_failure over the pools of
--                   the sites; Origin.Circuit has the circuit breaker. has_ready asks
--                   the circuits of all origins at one reading of the clock.
--   RoutePath       src/config.rs: canonical_route_path, the form in which routes are compared, with
--                   the decoding of UTF-8 (RoutePath.Utf8) that the standard library does for it.
--   Grpc            src/grpc.rs: check_headers and check_body over an interface for the library's
--                   descriptors; Grpc.Frames has the framing, Grpc.Rpc the names of methods,
--                   Grpc.Timeout the timeouts and Grpc.DeadlineText the deadline of the policy.
--   Graphql         src/graphql.rs: Graphql.Lexer and Graphql.Parser have next_token and what is read of
--                   a field, Graphql.Syntax parse_selection_set and parse_document, Graphql.Walk
--                   analyze_document, Graphql.Quota consume_quota, Graphql.Admission evaluate,
--                   Graphql.Body extract_ops and Graphql.Policy check. SHA-256 and the JSON of a
--                   library are arguments. Graphql.Measures says what a document costs. The position
--                   of the parser is the text that is left, and its stack of fragments an argument.
--                   Policies that share a book are calls with their own quota and window.
--   Dlp             src/dlp.rs: Dlp.Digits has cpf_valid, cnpj_valid and card_valid, and Dlp.Cards
--                   mask_cards, which masks the numbers of cards in a response.
--   Protocol        src/protocol.rs: Classify reads the headers, Section the policy, and evaluate
--                   gives the verdict.
-- Under them: Prelude (numbers, lists, results), Net (addresses, their parser and byte order), DashMap
-- (the concurrent maps, as association lists between two operations), Window (sliding windows of
-- instants), Text (texts as code points, with the methods of `str` that the program calls).
--
-- Numbers are natural numbers. The counters of 64 bits wrap where the source subtracts or adds
-- without a check (`% 2 ^ 64`); instants are nanoseconds, and `duration_since` stops at zero as it
-- does in Rust. Every reading of the clock is an argument, so that the theorems say which order of
-- readings they need. Most loops recurse on a list. Others count rounds: the one that replays a stored
-- body has as many as the body has bytes and one more, the one over the messages of a gRPC body as
-- many as the body has bytes, those of the parser of GraphQL as many as the source has characters and
-- one more, and the walk goes as many fragments deep as the document has. Proofs show that this is
-- enough.
--
-- A method is one step. Two threads may interleave within a call of the rate limiter or of the
-- slots of connections; that is not modelled, except that the rate filter holds a lock for its whole
-- call. The order in which a DashMap is iterated is that of insertion here and unspecified there.
-- The stack of a thread has no end here: the type that a query nests without limit ends its parse.
-- Logs, metrics and texts of errors are left out; the variables of the environment are arguments.
-- Not modelled: src/proxy.rs and what it calls around these parts: the firewall engine in src/waf.rs,
-- tokens in src/jwt.rs, the inspection by OpenAPI, the dashboard, the cidr lists, the
-- configuration, and what src/dlp.rs does with regular expressions and compression.
pub mod Prelude
pub mod Net
pub mod ProxyProtocol
pub mod Spool
pub mod DashMap
pub mod Window
pub mod Connection
pub mod RateLimit
pub mod Text
pub mod Protocol
pub mod RoutePath
pub mod Grpc
pub mod ClientIp
pub mod Shield
pub mod Origin
pub mod Graphql
pub mod Dlp
