-- ===== src/Http.antt =====
-- include/nev/http and src/nev/http: requests, responses, and the server over `TcpServer`.
pub mod Request
pub mod Headers
pub mod Response
pub mod Layout
pub mod Server
pub mod Exchange
mod Tests
