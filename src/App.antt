-- ===== src/App.antt =====
-- src/app/main.cpp: the program that wires the parts together.
pub mod Media
pub mod Main
