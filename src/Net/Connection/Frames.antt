-- ===== src/Net/Connection/Frames.antt =====
-- Connection.cpp: what the input operations keep of the output side, and `write` of the input side.
use aorta.Prelude.{
  ℕ, suc, ◌+◌, ◌≤◌, ◌≡◌, refl, ◌∙◌, some, List, [], ◌∷◌, ◌++◌, Bytes, length, length-append,
  length-take, length-drop, take, leb, null, ◌==◌, ◌||◌, arith, if_intro,
}
use aorta.Http.Parser.Defs
use aorta.Http.Parser.Defs.{ParseResult, need_more_data, complete, Parser}
use aorta.Http.Parser.Loop.{parse}
use aorta.Net.Connection.Defs.{max_receive_buffer, OutputBuffer, Connection}
use aorta.Net.Connection.Input.{
  Arrival, arrived, recv_interrupted, recv_blocked, recv_failed, ReadResult, read_size, read,
  consume_parsed_bytes, parse_request,
}
use aorta.Net.Connection.Output.{
  pop_output, output_size, Transfer, offered, write, pop_sent, transfer,
}
use aorta.Net.Connection.Writes.{write_keeps}

-- The fields of the output side.
abbrev pub SameOutput : Connection → Connection → Type 0
SameOutput d c =
    (d.output_queue ≡ c.output_queue)
    × (d.output_queue_size ≡ c.output_queue_size)
    × (d.wire ≡ c.wire)

pub read-SameOutput : (answers : List Arrival) (c : Connection) → SameOutput (read answers c).1 c
unfolding read
read-SameOutput [] c = ground arith
read-SameOutput (arrived bytes ∷ answers) c = ground arith
read-SameOutput (recv_interrupted ∷ answers) c = ground (arith, read-SameOutput answers c)
read-SameOutput (recv_blocked ∷ answers) c = ground arith
read-SameOutput (recv_failed ∷ answers) c = ground arith

pub consume-SameOutput : (c : Connection) → SameOutput (consume_parsed_bytes c).1 c
unfolding consume_parsed_bytes
consume-SameOutput c = ground arith

pub parse-SameOutput :
    (c d : Connection) (r : ParseResult) → parse_request c ≡ some (r, d) → SameOutput d c
unfolding parse_request
parse-SameOutput c d r h = ground arith

read_size-le : (used : ℕ) → used ≤ max_receive_buffer → used + read_size used ≤ max_receive_buffer
read_size-le used h = ground arith

pub read-short :
    (answers : List Arrival) (c : Connection)
    → length c.receive_buffer ≤ max_receive_buffer
    → length (read answers c).1.receive_buffer ≤ max_receive_buffer
unfolding read
read-short [] c h = ground arith
read-short (arrived bytes ∷ answers) c h =
    let short = λ (r : ReadResult × Connection). length r.1.receive_buffer ≤ max_receive_buffer in
    let n = read_size (length c.receive_buffer) in
    if_intro short (leb max_receive_buffer (length c.receive_buffer)) (λ t. h)
      λ t.
        if_intro short (null bytes) (λ u. h)
          λ u. omega (
            arith,
            length-append c.receive_buffer (take n bytes),
            length-take n bytes,
            read_size-le (length c.receive_buffer) h,
          )
read-short (recv_interrupted ∷ answers) c h = ground (arith, read-short answers c h)
read-short (recv_blocked ∷ answers) c h = ground arith
read-short (recv_failed ∷ answers) c h = ground arith

pub read-parser : (answers : List Arrival) (c : Connection) → (read answers c).1.parser ≡ c.parser
unfolding read
read-parser [] c = ground arith
read-parser (arrived bytes ∷ answers) c = ground arith
read-parser (recv_interrupted ∷ answers) c = ground (arith, read-parser answers c)
read-parser (recv_blocked ∷ answers) c = ground arith
read-parser (recv_failed ∷ answers) c = ground arith

pub consume-short :
    (c : Connection) → length (consume_parsed_bytes c).1.receive_buffer ≤ length c.receive_buffer
unfolding consume_parsed_bytes
consume-short c =
    let short = λ (r : ℕ × Connection). length r.1.receive_buffer ≤ length c.receive_buffer in
    if_intro short (c.parser.cursor == 0) (λ t. omega arith)
      λ t.
        if_intro short (leb (length c.receive_buffer) c.parser.cursor) (λ u. omega arith)
          λ u. omega (arith, length-drop c.parser.cursor c.receive_buffer)

pub consume-parser :
    (c : Connection) → (consume_parsed_bytes c).1.parser ≡ (Defs.consume_parsed_bytes c.parser).1
unfolding consume_parsed_bytes
consume-parser c = ground arith

pub parse-parser :
    (c d : Connection) (r : ParseResult)
    → parse_request c ≡ some (r, d)
    → parse c.receive_buffer c.parser ≡ some (r, d.parser)
unfolding parse_request
parse-parser c d r h = ground arith

pub parse-buffer :
    (c d : Connection) (r : ParseResult)
    → parse_request c ≡ some (r, d)
    → d.receive_buffer ≡ c.receive_buffer
unfolding parse_request
parse-buffer c d r h = ground arith

pop_sent-receive_buffer :
    (queue : List OutputBuffer) (c : Connection)
    → (pop_sent queue c).receive_buffer ≡ c.receive_buffer
unfolding pop_sent pop_output
pop_sent-receive_buffer [] c = refl
pop_sent-receive_buffer (output ∷ rest) c =
    if_intro (λ (d : Connection). d.receive_buffer ≡ c.receive_buffer)
      (leb (output_size output) output.offset)
      (λ t. pop_sent-receive_buffer rest (pop_output output rest c)) (λ t. refl)

pop_sent-parser :
    (queue : List OutputBuffer) (c : Connection) → (pop_sent queue c).parser ≡ c.parser
unfolding pop_sent pop_output
pop_sent-parser [] c = refl
pop_sent-parser (output ∷ rest) c =
    if_intro (λ (d : Connection). d.parser ≡ c.parser) (leb (output_size output) output.offset)
      (λ t. pop_sent-parser rest (pop_output output rest c)) (λ t. refl)

-- The fields of the input side.
abbrev pub SameInput : Connection → Connection → Type 0
SameInput d c = (d.receive_buffer ≡ c.receive_buffer) × (d.parser ≡ c.parser)

transfer-SameInput :
    (sent : Bytes) (output : OutputBuffer) (rest : List OutputBuffer) (c : Connection)
    → SameInput (transfer sent output rest c) c
unfolding transfer pop_output
transfer-SameInput sent output rest c =
    let out : OutputBuffer = record output { offset = output.offset + length sent } in
    let d : Connection = record c { output_queue = out ∷ rest; wire = c.wire ++ sent } in
    if_intro (λ x. SameInput x c) (null sent || out.offset == output_size output)
      {x = pop_output out rest d} {y = d} (λ t. (refl, refl)) (λ t. (refl, refl))

pub write-SameInput :
    (files : ℕ → Bytes) (answers : List Transfer) (c : Connection)
    → SameInput (write files answers c).1 c
write-SameInput files answers c =
    write_keeps (λ d. SameInput d c) files
      (λ d (b, p).
        (pop_sent-receive_buffer d.output_queue d ∙ b, pop_sent-parser d.output_queue d ∙ p))
      (λ n output rest d e (b, p).
        let (b', p') = transfer-SameInput (take (suc n) (offered files output)) output rest d in
        (b' ∙ b, p' ∙ p))
      answers c (refl, refl)
