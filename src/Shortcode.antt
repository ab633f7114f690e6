-- ===== src/Shortcode.antt =====
-- internal/shortcode: the short codes that the program generates, the reserved words, and the
-- aliases that a user may choose. The children prove that a valid alias is what the rules say
-- (Valid) and that generated codes and aliases are disjoint (Namespace).
pub mod Generate
pub mod Reserved
pub mod Alias
pub mod Valid
pub mod Namespace
mod Examples
