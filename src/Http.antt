-- ===== src/Http.antt =====
-- source/Http/http.hpp, part by part.
pub mod Tables
pub mod Util
pub mod Request
pub mod Response
pub mod Line
pub mod Context
pub mod Server
