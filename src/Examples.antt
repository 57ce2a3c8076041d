-- ===== src/Examples.antt =====
-- The programs that are built on the library: examples and registry.
pub mod Calculator
pub mod Echo
