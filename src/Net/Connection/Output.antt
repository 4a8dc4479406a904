-- ===== src/Net/Connection/Output.antt =====
-- Connection.cpp: queueResponse, queueFile and write.
use aorta.Prelude.{
  ℕ, suc, ◌+◌, Bool, true, false, not, Option, none, some, List, [], ◌∷◌, ◌++◌, Bytes, length, take,
  drop, ltb, leb, ◌==◌, null, if◌then◌else◌, sub_size, ◌||◌,
}
use aorta.Net.Connection.Defs.{
  max_output_queue_size, OutputType, memory, file, OutputBuffer, Connection,
}

unfoldable pub queue_response : Bytes → Connection → Bool × Connection
queue_response response c =
    if ltb max_output_queue_size (length response)
    then (false, c)
    else if ltb max_output_queue_size (c.output_queue_size + length response)
    then (false, c)
    else (
      true,
      record c {
        output_queue =
            c.output_queue
            ++ (record {
              type = memory;
              content = response;
              offset = 0;
              file_fd = none;
              file_size = 0;
            })
              ∷ [];
        output_queue_size = c.output_queue_size + length response;
      },
    )

-- The end of `queueFile`, from `open` on: its argument is what `open` answers, `none` for -1.
unfoldable pub queue_opened : Option ℕ → ℕ → Connection → Bool × Connection
queue_opened none file_size c = (false, c)
queue_opened (some opened) file_size c = (
  true,
  record c {
    output_queue =
        c.output_queue
        ++ (record {
          type = file;
          content = [];
          offset = 0;
          file_fd = some opened;
          file_size = file_size;
        })
          ∷ [];
    output_queue_size = c.output_queue_size + file_size;
  },
)

unfoldable pub queue_file : Option ℕ → ℕ → Connection → Bool × Connection
unfolding queue_opened
queue_file opened file_size c =
    if ltb max_output_queue_size file_size
    then (false, c)
    else if ltb max_output_queue_size (c.output_queue_size + file_size)
    then (false, c)
    else queue_opened opened file_size c

unfoldable pub has_pending_output : Connection → Bool
has_pending_output c = not (null c.output_queue)

-- `output.data.size()` or `output.file_size`.
unfoldable pub size_by : OutputType → OutputBuffer → ℕ
size_by memory output = length output.content
size_by file output = output.file_size

abbrev pub output_size : OutputBuffer → ℕ
output_size output = size_by output.type output

abbrev pub close_output_file : Option ℕ → List ℕ → List ℕ
close_output_file none closed = closed
close_output_file (some fd) closed = fd ∷ closed

-- `closeOutputFile` for a file, the subtraction on `std::size_t`, and `pop_front`.
unfoldable pub pop_output : OutputBuffer → List OutputBuffer → Connection → Connection
pop_output output rest c = record c {
  output_queue = rest;
  output_queue_size = sub_size c.output_queue_size (output_size output);
  closed_files = close_output_file output.file_fd c.closed_files;
}

-- The rounds of the loop that pop an output which is already sent, up to one that is not.
unfoldable pub pop_sent : List OutputBuffer → Connection → Connection
unfolding pop_output size_by
pop_sent [] c = c
pop_sent (output ∷ rest) c =
    let popped = pop_sent rest (pop_output output rest c) in
    if leb (output_size output) output.offset then popped else c

-- What `send` or `sendfile` answers: the socket takes up to that many bytes and one more, or -1 with
-- an `errno`.
pub data Transfer : Type 0 where
  room : ℕ → Transfer
  blocked : Transfer
  interrupted : Transfer
  failed : Transfer

-- The bytes that are left of what an output has to offer: of a file, what `files` says stands in it.
unfoldable pub offered_by : OutputType → (ℕ → Bytes) → OutputBuffer → Bytes
offered_by memory files output = drop output.offset output.content
offered_by file files output =
    drop output.offset
      (elim (output.file_fd) [ none ↦ [] | some fd ↦ take output.file_size (files fd) ])

abbrev pub offered : (ℕ → Bytes) → OutputBuffer → Bytes
offered files output = offered_by output.type files output

-- The result `bytes_sent >= 0`: the offset moves, and an output that is sent, or a file at whose end
-- `sendfile` returns 0, is popped.
unfoldable pub transfer : Bytes → OutputBuffer → List OutputBuffer → Connection → Connection
unfolding pop_output size_by
transfer sent output rest c =
    let moved = record output { offset = output.offset + length sent } in
    let d = record c { output_queue = moved ∷ rest; wire = c.wire ++ sent } in
    if null sent || moved.offset == output_size output then pop_output moved rest d else d

pub data WriteResult : Type 0 where
  complete : WriteResult
  would_block : WriteResult
  error : WriteResult

-- `write`. The list holds what the calls answer before the socket would block.
unfoldable pub write : (ℕ → Bytes) → List Transfer → Connection → WriteResult × Connection
unfolding pop_sent transfer offered_by
write files [] c =
    let d = pop_sent c.output_queue c in
    if null d.output_queue then (complete, d) else (would_block, d)
write files (answer ∷ answers) c =
    let d = pop_sent c.output_queue c in
    elim (d.output_queue) [
      | [] ↦ (complete, d)
      | output ∷ rest ↦ elim answer [
        | room n ↦
            write files answers (transfer (take (suc n) (offered files output)) output rest d)
        | blocked ↦ (would_block, d)
        | interrupted ↦ write files answers d
        | failed ↦ (error, d)
      ]
    ]

unfoldable pub set_close_after_write : Bool → Connection → Connection
set_close_after_write value c = record c { close_after_write = value }

-- The destructor: the files that are still queued are closed, in order, and then the socket. The last
-- entry of the result is what was closed first.
abbrev pub close_output_files : List OutputBuffer → List ℕ → List ℕ
close_output_files [] closed = closed
close_output_files (output ∷ queue) closed =
    close_output_files queue (close_output_file output.file_fd closed)

unfoldable pub destroy : Connection → List ℕ
destroy c = c.fd ∷ close_output_files c.output_queue c.closed_files
