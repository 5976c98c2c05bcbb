-- ===== src/Graphql.antt =====
-- src/graphql.rs: the limits of a site on GraphQL queries.
pub mod Document
pub mod Lexer
pub mod Parser
pub mod Syntax
pub mod Ends
pub mod Limits
pub mod Quota
pub mod Admission
pub mod Admitted
pub mod Body
pub mod Policy
pub mod Refused
pub mod Unreadable
pub mod Inspected
pub mod Walk
pub mod Measures
mod Tests
