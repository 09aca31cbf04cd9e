-- ===== src/Platform.antt =====
-- internal/platform and internal/api/errmap.go: the error type that crosses the bounded contexts
-- and the one place where it becomes an HTTP response.
pub mod Apperr
pub mod Responses
mod Tests
