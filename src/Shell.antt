-- ===== src/Shell.antt =====
-- The tiny shell with job control, Computer_Science-360/lab2/tsh.c.
pub mod Jobs
pub mod Signals
pub mod Parse
pub mod Commands
pub mod MainLoop
pub mod Numbers
mod Table
mod AddDelete
mod Reap
mod Handler
mod Foreground
mod Caught
mod Prompt
mod Waiting
mod Session
mod Printed
mod RoundTrip
mod Tests
