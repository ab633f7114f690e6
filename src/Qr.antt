-- ===== src/Qr.antt =====
-- internal/qr: the parts of the renderer that do not paint, which are the geometry of a symbol
-- (shape.go), the guards on options and sizes (policy.go, render.go, encode.go) and colours.
pub mod Geometry
pub mod Colors
pub mod Levels
mod Examples
