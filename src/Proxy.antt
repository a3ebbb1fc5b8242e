-- ===== src/Proxy.antt =====
-- The caching web proxy, Computer_Science-360/lab5/proxy.c.
pub mod Cache
pub mod Requests
pub mod Serve
mod Lookup
mod Replace
mod Forward
mod Again
mod Tests
