-- ===== src/Middleware.antt =====
-- core/message/middleware: the chain and the middlewares.
pub mod Chain
pub mod Errors
pub mod Flow
