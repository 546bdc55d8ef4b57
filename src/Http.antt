-- ===== src/Http.antt =====
-- The HTTP side: internal/infrastructure/http, and the roles of internal/infrastructure/auth.
pub mod Problems
pub mod Access
pub mod Cursor
pub mod Answers
pub mod Handlers
pub mod Private
pub mod Unchanged
mod Tests
