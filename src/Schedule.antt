-- ===== src/Schedule.antt =====
-- internal/services/aws/scheduleexpr/expression.go: rate, cron and at expressions, in UTC.
pub mod Calendar
pub mod Cron
pub mod Field
pub mod Parse
pub mod Next
mod Tests
