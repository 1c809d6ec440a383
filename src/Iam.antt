-- ===== src/Iam.antt =====
-- internal/services/aws/iam/authorizer.go: whether a principal's policies allow a request.
pub mod Glob
pub mod Policy
pub mod Condition
pub mod Decide
mod Tests
