-- ===== src/Cookie.antt =====
-- src/Cookie.cpp and include/Cookie.h: the cookie that a response sets. `CookiePath` is the class
-- `Cookie::Path`. A copy constructor copies every field and a destructor does nothing.
pub mod Authority
pub mod CookiePath
pub mod Expires
pub mod Credentials
pub mod Defs
