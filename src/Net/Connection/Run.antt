-- ===== src/Net/Connection/Run.antt =====
-- Connection.cpp: what holds of a connection, in whatever order its owner reads, parses, queues and writes.
use aorta.Prelude.{
  ℕ, ◌≤◌, ◌≡◌, refl, sym, ap, ◌∙◌, subst, Bool, true, false, some, List, [], ◌∷◌, ◌++◌, append-nil,
  append_assoc, Bytes, length, take, arith, if◌then◌else◌,
}
use aorta.Http.Parser.Defs
use aorta.Http.Parser.Defs.{ParseResult, need_more_data, complete, Parser}
use aorta.Http.Parser.Session.{Fed}
use aorta.Net.Connection.Defs.{max_receive_buffer, OutputBuffer, Connection, new_connection}
use aorta.Net.Connection.Input.{Arrival, read, consume_parsed_bytes, parse_request, reset_parser}
use aorta.Net.Connection.Output.{
  queue_response, queue_file, queue_opened, Transfer, offered, offered_by, write,
}
use aorta.Net.Connection.Accounts.{
  IsAccounted, AllWithin, queue_total, write-IsAccounted, queue_response-IsAccounted,
  queue_file-IsAccounted,
}
use aorta.Net.Connection.Stream.{pending, stream, write-stream}
use aorta.Net.Connection.Frames.{
  SameOutput, read-SameOutput, consume-SameOutput, parse-SameOutput, read-short, read-parser,
  consume-short, consume-parser, parse-parser, parse-buffer, write-SameInput,
}

-- A connection, with the bytes that were queued for it so far. A call that refuses leaves it as it was.
pub data Serves (files : ℕ → Bytes) : Bytes → Connection → Type 0 where
  opened : (fd reactor_id : ℕ) → Serves files [] (new_connection fd reactor_id)
  was_read :
      (answers : List Arrival) (s : Bytes) (c : Connection)
      → Serves files s c
      → Serves files s (read answers c).1
  waits :
      (s : Bytes) (c d : Connection)
      → Serves files s c
      → parse_request c ≡ some (need_more_data, d)
      → Serves files s (consume_parsed_bytes d).1
  served :
      (s : Bytes) (c d : Connection)
      → Serves files s c
      → parse_request c ≡ some (complete, d)
      → Serves files s (reset_parser (consume_parsed_bytes d).1)
  responded :
      (response s : Bytes) (c d : Connection)
      → Serves files s c
      → queue_response response c ≡ (true, d)
      → Serves files (s ++ response) d
  sends_file :
      (file_fd file_size : ℕ) (s : Bytes) (c d : Connection)
      → Serves files s c
      → queue_file (some file_fd) file_size c ≡ (true, d)
      → Serves files (s ++ take file_size (files file_fd)) d
  wrote :
      (answers : List Transfer) (s : Bytes) (c : Connection)
      → Serves files s c
      → Serves files s (write files answers c).1

pending-snoc :
    (files : ℕ → Bytes) (queue : List OutputBuffer) (output : OutputBuffer)
    → pending files (queue ++ output ∷ []) ≡ pending files queue ++ offered files output
unfolding pending
pending-snoc files [] output = append-nil _
pending-snoc files (o ∷ queue) output =
    ap (◌++◌ (offered files o)) (pending-snoc files queue output)
    ∙ sym (append_assoc (offered files o) (pending files queue) (offered files output))

pub record IsServed (files : ℕ → Bytes) (s : Bytes) (c : Connection) : Type 0 where
  pub accounted : IsAccounted c
  pub streamed : stream files c ≡ s
  pub received : length c.receive_buffer ≤ max_receive_buffer
  pub fed : Fed c.parser

module _ (files : ℕ → Bytes) where
  -- What a change of the input side keeps.
  output_kept :
      (s : Bytes) (c d : Connection)
      → SameOutput d c
      → length d.receive_buffer ≤ max_receive_buffer
      → Fed d.parser
      → IsServed files s c
      → IsServed files s d
  output_kept s c d (queue, size, wire) short f h = record {
    accounted = rw (queue, size) (h.accounted);
    streamed = rw (queue, wire) (h.streamed);
    received = short;
    fed = f;
  }

  consumed :
      (s : Bytes) (c d : Connection) (r : ParseResult)
      → parse_request c ≡ some (r, d)
      → Fed (Defs.consume_parsed_bytes d.parser).1
      → IsServed files s c
      → IsServed files s (consume_parsed_bytes d).1
  consumed s c d r e f h =
      let (q, n, w) = consume-SameOutput d in
      let (q', n', w') = parse-SameOutput c d r e in
      output_kept s c (consume_parsed_bytes d).1 (q ∙ q', n ∙ n', w ∙ w')
        (omega (arith, consume-short d, ap length (parse-buffer c d r e), h.received))
        (subst Fed (sym (consume-parser d)) f) h

  reset_parser-IsServed :
      (s : Bytes) (c d : Connection)
      → parse_request c ≡ some (complete, d)
      → IsServed files s c
      → IsServed files s (reset_parser (consume_parsed_bytes d).1)
  unfolding reset_parser
  reset_parser-IsServed s c d p h =
      let (q, n, w) = consume-SameOutput d in
      let (q', n', w') = parse-SameOutput c d _ p in
      output_kept s c _ (q ∙ q', n ∙ n', w ∙ w')
        (omega (arith, consume-short d, ap length (parse-buffer c d _ p), h.received))
        (subst (λ x. Fed (Defs.reset x)) (sym (consume-parser d))
          (Fed.again c.receive_buffer h.fed (parse-parser c d _ p)))
        h

  -- A response or a file that is queued behind what is there.
  queued :
      (s : Bytes) (output : OutputBuffer) (n : ℕ) (c : Connection)
      → let d : Connection = record c {
        output_queue = c.output_queue ++ output ∷ [];
        output_queue_size = n;
      } in
        IsAccounted d → IsServed files s c → IsServed files (s ++ offered files output) d
  queued s output n c acc h = record {
    accounted = acc;
    streamed =
        ap (◌++◌ c.wire) (pending-snoc files c.output_queue output)
        ∙ sym (append_assoc c.wire (pending files c.output_queue) (offered files output))
        ∙ ap (λ t. t ++ offered files output) h.streamed;
    received = h.received;
    fed = h.fed;
  }

  accepted :
      (a b : Bool) (c x d : Connection)
      → ◌≡◌ {A = Bool × Connection}
          (if a then (false, c) else if b then (false, c) else (true, x))
          (true, d)
      → x ≡ d
  accepted true b c x d e = cc
  accepted false true c x d e = cc
  accepted false false c x d e = ap (λ r. r.1) e

  responded-IsServed :
      (response s : Bytes) (c d : Connection)
      → queue_response response c ≡ (true, d)
      → IsServed files s c
      → IsServed files (s ++ response) d
  unfolding queue_response offered_by
  responded-IsServed response s c d e h =
      let same = accepted _ _ c _ d e in
      let acc =
        subst (λ r. IsAccounted r.1) e (queue_response-IsAccounted response c h.accounted) in
      subst (IsServed files (s ++ response)) same
        (queued s _ _ c (subst IsAccounted (sym same) acc) h)

  sends_file-IsServed :
      (file_fd file_size : ℕ) (s : Bytes) (c d : Connection)
      → queue_file (some file_fd) file_size c ≡ (true, d)
      → IsServed files s c
      → IsServed files (s ++ take file_size (files file_fd)) d
  unfolding queue_file queue_opened offered_by
  sends_file-IsServed file_fd file_size s c d e h =
      let same = accepted _ _ c _ d e in
      let acc =
        subst (λ r. IsAccounted r.1) e
          (queue_file-IsAccounted (some file_fd) file_size c h.accounted) in
      subst (IsServed files (s ++ take file_size (files file_fd))) same
        (queued s _ _ c (subst IsAccounted (sym same) acc) h)

  wrote-IsServed :
      (answers : List Transfer) (s : Bytes) (c : Connection)
      → IsServed files s c
      → IsServed files s (write files answers c).1
  wrote-IsServed answers s c h =
      let (b, p) = write-SameInput files answers c in
      record {
        accounted = write-IsAccounted files answers c h.accounted;
        streamed = write-stream files answers c ∙ h.streamed;
        received = rw b (h.received);
        fed = subst Fed (sym p) h.fed;
      }

  -- Whatever order its owner reads, parses, queues and writes in, and whatever the calls of the socket
  -- answer: a connection's `output_queue_size` is the sum of what is queued and at most 8 MiB, what it has
  -- sent and what it still has to send are the bytes that were queued for it in order, its receive
  -- buffer holds at most 65536 bytes, and its parser is one that parsing has led to.
  pub Serves-IsServed : (s : Bytes) (c : Connection) → Serves files s c → IsServed files s c
  unfolding pending queue_total AllWithin
  Serves-IsServed s c (opened fd reactor_id) = record {
    accounted = (refl, omega arith, tt);
    streamed = refl;
    received = omega arith;
    fed = Fed.start;
  }
  Serves-IsServed s c (was_read answers t d w) =
      let h = Serves-IsServed t d w in
      output_kept t d _ (read-SameOutput answers d) (read-short answers d h.received)
        (subst Fed (sym (read-parser answers d)) h.fed) h
  Serves-IsServed s c (waits t d e w p) =
      let h = Serves-IsServed t d w in
      consumed t d e _ p (Fed.more d.receive_buffer h.fed (parse-parser d e _ p)) h
  Serves-IsServed s c (served t d e w p) = reset_parser-IsServed t d e p (Serves-IsServed t d w)
  Serves-IsServed s c (responded response t d e w q) =
      responded-IsServed response t d e q (Serves-IsServed t d w)
  Serves-IsServed s c (sends_file file_fd file_size t d e w q) =
      sends_file-IsServed file_fd file_size t d e q (Serves-IsServed t d w)
  Serves-IsServed s c (wrote answers t d w) = wrote-IsServed answers t d (Serves-IsServed t d w)
