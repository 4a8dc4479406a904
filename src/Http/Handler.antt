-- ===== src/Http/Handler.antt =====
-- include/http/HttpHandler.hpp and http/HttpHandler.cpp: the dispatch of a request, and the tasks' answers.
pub mod Escape
pub mod Json
pub mod Reading
pub mod Form
pub mod Encoding
pub mod Submitted
pub mod TaskId
pub mod Body
pub mod Answers
pub mod Dispatch
pub mod Framed
pub mod Answered
