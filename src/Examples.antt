-- ===== src/Examples.antt =====
-- examples/basic/: a program on top of the library.
pub mod Math
