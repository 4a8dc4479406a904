-- ===== src/Net/Connection/Input.antt =====
-- Connection.cpp: read, parseRequest, consumeParsedBytes and resetParser.
use aorta.Prelude.{
  ℕ, ◌-◌, Option, none, some, List, [], ◌∷◌, ◌++◌, Bytes, length, take, drop, leb, ltb, null, ◌==◌,
  if◌then◌else◌,
}
use aorta.Http.Parser.Defs
use aorta.Http.Parser.Defs.{ParseResult}
use aorta.Http.Parser.Loop.{parse}
use aorta.Net.Connection.Defs.{max_receive_buffer, Connection}

pub data ReadResult : Type 0 where
  data_received disconnected read_error buffer_full would_block : ReadResult

-- What `recv` answers: the bytes that have arrived, none at the end of the stream, or -1 with an
-- `errno`. `recv` takes as many of the bytes as it is asked for.
pub data Arrival : Type 0 where
  arrived : Bytes → Arrival
  recv_interrupted : Arrival
  recv_blocked : Arrival
  recv_failed : Arrival

abbrev pub read_size : ℕ → ℕ
read_size used = if ltb 4096 (max_receive_buffer - used) then 4096 else max_receive_buffer - used

unfoldable pub read : List Arrival → Connection → ReadResult × Connection
read [] c =
    if leb max_receive_buffer (length c.receive_buffer) then (buffer_full, c) else (would_block, c)
read (arrived bytes ∷ answers) c =
    if leb max_receive_buffer (length c.receive_buffer)
    then (buffer_full, c)
    else if null bytes
    then (disconnected, c)
    else (
      data_received,
      record c {
        receive_buffer = c.receive_buffer ++ take (read_size (length c.receive_buffer)) bytes;
      },
    )
read (recv_interrupted ∷ answers) c =
    let again = read answers c in
    if leb max_receive_buffer (length c.receive_buffer) then (buffer_full, c) else again
read (recv_blocked ∷ answers) c =
    if leb max_receive_buffer (length c.receive_buffer) then (buffer_full, c) else (would_block, c)
read (recv_failed ∷ answers) c =
    if leb max_receive_buffer (length c.receive_buffer) then (buffer_full, c) else (read_error, c)

unfoldable pub consume_parsed_bytes : Connection → ℕ × Connection
unfolding Defs.consume_parsed_bytes
consume_parsed_bytes c =
    let (consumed, parser) = Defs.consume_parsed_bytes c.parser in
    let d = record c { parser = parser } in
    if consumed == 0
    then (0, d)
    else if leb (length c.receive_buffer) consumed
    then (consumed, record d { receive_buffer = [] })
    else (consumed, record d { receive_buffer = drop consumed c.receive_buffer })

-- `none` means that the parser's fuel ran out.
unfoldable pub parse_request : Connection → Option (ParseResult × Connection)
unfolding parse
parse_request c = elim (parse c.receive_buffer c.parser) [
  | none ↦ none
  | some (result, parser) ↦ some (result, record c { parser = parser })
]

unfoldable pub reset_parser : Connection → Connection
unfolding Defs.reset
reset_parser c = record c { parser = Defs.reset c.parser }
