-- ===== src/Dynamo.antt =====
-- internal/services/aws/dynamodb/expr/expr.go: the expressions of DynamoDB.
pub mod Value
pub mod Sets
pub mod Split
pub mod Parse
pub mod Eval
pub mod Update
mod Tests
