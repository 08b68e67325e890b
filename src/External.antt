-- ===== src/External.antt =====
-- What the program calls of code that is not its own: a record of operations for each library, and
-- a record of the documented laws that the properties need.
pub mod Json
pub mod Boost
pub mod Files
pub mod Xml
