-- ===== src/Http/Parser/Session.antt =====
-- HttpParser.cpp as Connection.cpp and Reactor.cpp drive it: calls of `parse`, each on any buffer,
-- with `consumeParsedBytes` after `NeedMoreData` and `reset` after `Complete`.
use aorta.Prelude.{ℕ, ◌≡◌, some, Bytes, length}
use aorta.Http.Parser.Defs.{
  ParseResult, need_more_data, complete, Parser, initial, consume_parsed_bytes, reset,
}
use aorta.Http.Parser.Loop.{parse}
use aorta.Http.Parser.Bounds.{
  IsBounded, Ends, parse-Ends, initial-IsBounded, consume_parsed_bytes-IsBounded,
}
use aorta.Http.Parser.Total.{parse-total}
use aorta.Http.Parser.Accepted.{
  Known, IsAccepted, parse-Known, parse_complete-IsAccepted, initial-Known,
  consume_parsed_bytes-Known,
}

-- The parser of a connection before a call of `parse`.
pub data Fed : Parser → Type 0 where
  start : Fed initial
  more :
      {p q : Parser} (buffer : Bytes)
      → Fed p
      → parse buffer p ≡ some (need_more_data, q)
      → Fed (consume_parsed_bytes q).1
  again :
      {p q : Parser} (buffer : Bytes)
      → Fed p
      → parse buffer p ≡ some (complete, q)
      → Fed (reset (consume_parsed_bytes q).1)

reset-IsBounded : (size : ℕ) (p : Parser) → IsBounded size (reset p)
unfolding reset
reset-IsBounded size p = initial-IsBounded size

reset-Known : (p : Parser) → Known (reset p)
unfolding reset
reset-Known p = initial-Known

Fed-IsBounded : {p : Parser} → Fed p → (size : ℕ) → IsBounded size p
Fed-IsBounded start size = initial-IsBounded size
Fed-IsBounded (more {p} buffer f e) size =
    consume_parsed_bytes-IsBounded size (parse-Ends buffer p (Fed-IsBounded f (length buffer)) e)
Fed-IsBounded (again buffer f e) size = reset-IsBounded size _

Fed-Known : {p : Parser} → Fed p → Known p
Fed-Known start = initial-Known
Fed-Known (more {p} buffer f e) = consume_parsed_bytes-Known (parse-Known buffer p (Fed-Known f) e)
Fed-Known (again buffer f e) = reset-Known _

-- However a client's bytes are split into buffers, each call of `parse` returns, and the parser it
-- leaves is within the limits of HttpParser.hpp: `Ends` says which. In particular the cursor is
-- inside the buffer, at most 100 headers are stored, and the body has at most 1048576 bytes.
pub Fed-parse_returns :
    (p : Parser) (buffer : Bytes)
    → Fed p
    → (r : ParseResult) × (q : Parser) × (parse buffer p ≡ some (r, q)) × Ends (length buffer) r q
Fed-parse_returns p buffer f =
    let b = Fed-IsBounded f (length buffer) in
    let (r, q, e) = parse-total buffer p b in (r, q, e, parse-Ends buffer p b e)

-- However a client's bytes are split into buffers, a request for which `parse` returns `Complete`
-- has a valid method, target and version, valid header names, exactly one Host header, and
-- unambiguous framing: one Transfer-Encoding header and no Content-Length header, or none of the
-- former and a body whose length every Content-Length header announces (empty if there is none).
pub Fed-parse-IsAccepted :
    (p : Parser) (buffer : Bytes) {q : Parser}
    → Fed p
    → parse buffer p ≡ some (complete, q)
    → IsAccepted q.request
Fed-parse-IsAccepted p buffer f e =
    parse_complete-IsAccepted buffer p (Fed-IsBounded f (length buffer)) (Fed-Known f) e
