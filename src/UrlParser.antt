-- ===== src/UrlParser.antt =====
-- src/UrlParser.cpp and include/UrlParser.h: query strings (`Query`), percent escapes (`Percent`)
-- and hexadecimal digits (`Hex`).
pub mod Hex
pub mod Percent
pub mod Query
