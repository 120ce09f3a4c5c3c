-- ===== src/Middleware.antt =====
-- internal/middleware: what every request passes before its handler.
pub mod RateLimit
pub mod Chain
