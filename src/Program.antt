-- ===== src/Program.antt =====
-- src/server/main.cpp and src/client/main.cpp: the two programs, from the logger to the exit
-- status.
pub mod Asking
pub mod ServerMain
pub mod ClientMain
pub mod Exits
