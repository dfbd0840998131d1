-- ===== src/Shell.antt =====
-- bin/sbush/sbush.c: the shell. What it asks of the system (directories, files, processes, output)
-- is a list of actions; the line being read stands in a memory of bytes and is cut up in place.
pub mod Tokens
pub mod Environment
pub mod Commands
pub mod Pipe
pub mod Main
pub mod Scripts
