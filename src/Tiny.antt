-- ===== src/Tiny.antt =====
-- The small web server, Computer_Science-360/lab5/tiny/tiny.c.
pub mod Server
mod Answers
mod Refusals
mod Tests
