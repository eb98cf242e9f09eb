-- ===== src/Config.antt =====
-- CommonLib/ConfigHelp.cpp: the options of a program, read from a file.
pub mod Options
pub mod Reading
pub mod Printing
mod Tests
