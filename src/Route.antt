-- ===== src/Route.antt =====
-- internal/route: TCP windows and congestion control of the kernel's routes.
pub mod Config
pub mod Segments
pub mod Lines
pub mod Optimizer
pub mod Detection
pub mod Optimize
