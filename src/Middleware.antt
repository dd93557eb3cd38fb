-- ===== src/Middleware.antt =====
-- src/rate_limit_patterns/middleware: the integrations with ASGI and FastAPI.
pub mod Headers
pub mod Shared
pub mod Asgi
pub mod Fastapi
