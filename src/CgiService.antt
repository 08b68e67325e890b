-- ===== src/CgiService.antt =====
-- src/CgiService.cpp and include/CgiService.h: the FastCGI service. `Events` has the responses, `Body`
-- and `CookieHeader` what is read of a request, `Request` the handler, `Serve` the loop of a thread,
-- `Database` and `Launch` the constructor, `Threads` the threads on a counter that they share, and
-- `Pool` the threads on one service.
pub mod Events
pub mod Body
pub mod CookieHeader
pub mod Session
pub mod World
pub mod Request
pub mod Serve
pub mod Database
pub mod Launch
pub mod Threads
pub mod Pool
pub mod Accepting
