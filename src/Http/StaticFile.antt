-- ===== src/Http/StaticFile.antt =====
-- include/http/StaticFileHandler.hpp and http/StaticFileHandler.cpp: the files below the public directory.
pub mod Defs
pub mod Safe
