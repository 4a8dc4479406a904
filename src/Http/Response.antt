-- ===== src/Http/Response.antt =====
-- include/http/HttpResponse.hpp and http/HttpResponse.cpp.
pub mod Defs
pub mod Framing
pub mod Reading
