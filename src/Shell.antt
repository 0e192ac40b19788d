-- ===== src/Shell.antt =====
-- The shell: the parser of 0. Simple Shell Parser and 1. Simple Shell, and the execution of a pipeline.
pub mod Text
pub mod Parser
pub mod Tokens
pub mod Bounds
pub mod Argv
pub mod Printer
pub mod RoundTrip
pub mod RedirectIn
pub mod Exec
pub mod Wiring
pub mod Foreground
pub mod Redirects
pub mod Main
pub mod Session
mod Tests
