-- ===== src/Shared.antt =====
-- backend-go/shared: the types that the services exchange.
pub mod Name
pub mod Quiz
pub mod Scores
pub mod Errors
pub mod Token
