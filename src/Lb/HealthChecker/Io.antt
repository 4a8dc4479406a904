-- ===== src/Lb/HealthChecker/Io.antt =====
-- HealthChecker.cpp: handleConnect, handleWrite and handleRead.
use aorta.Prelude.{
  take, min, ◌-◌, ℕ, ◌+◌, ◌*◌, Bool, true, false, none, some, List, [], ◌∷◌, ◌++◌, Bytes, codes,
  length, ltb, null, if◌then◌else◌, put, find_text,
}
use aorta.Lb.HealthChecker.Defs.{
  millisecond, response_timeout_ms, max_response_size, writing, reading, Check, Checker,
  finish_check, fail_check,
}

-- A write to the fields of a check that stays in `checks`.
unfoldable pub store : Check → Checker → Checker
unfolding put
store check c = record c { checks = put check.fd check c.checks }

abbrev response_deadline : ℕ → ℕ
response_deadline now = now + response_timeout_ms * millisecond

-- `failed` is `getsockopt(...) == -1 || socket_error != 0`.
unfoldable pub handle_connect : ℕ → Bool → Check → Checker → Checker
unfolding store fail_check
handle_connect now failed check c =
    if failed
    then fail_check check.fd c
    else store (record check { state = writing; deadline = response_deadline now }) c

-- What `send` answers: the number it returns, or -1 with an `errno`.
pub data Sent : Type 0 where
  sent : ℕ → Sent
  send_interrupted : Sent
  send_would_block : Sent
  send_error : Sent

-- How an input or output loop is left.
pub data IoEnd : Type 0 where
  waits : IoEnd
  breaks : IoEnd
  completes : IoEnd

-- The loop of `handleWrite`: how it is left, and `write_offset` then. The list holds the answers that
-- come before an `EAGAIN`; answers after the loop's end are not read.
unfoldable pub write_loop : List Sent → ℕ → ℕ → IoEnd × ℕ
write_loop [] size offset = if ltb offset size then (waits, offset) else (completes, offset)
write_loop (sent n ∷ answers) size offset =
    let rest = write_loop answers size (offset + n) in
    if ltb offset size then if ltb 0 n then rest else (breaks, offset) else (completes, offset)
write_loop (send_interrupted ∷ answers) size offset =
    let rest = write_loop answers size offset in
    if ltb offset size then rest else (completes, offset)
write_loop (send_would_block ∷ answers) size offset =
    if ltb offset size then (waits, offset) else (completes, offset)
write_loop (send_error ∷ answers) size offset =
    if ltb offset size then (breaks, offset) else (completes, offset)

unfoldable pub end_write : ℕ → Check → IoEnd × ℕ → Checker → Checker
unfolding store fail_check
end_write now check (waits, offset) c = store (record check { write_offset = offset }) c
end_write now check (breaks, offset) c = fail_check check.fd c
end_write now check (completes, offset) c =
    store
      (record check { write_offset = offset; state = reading; deadline = response_deadline now }) c

unfoldable pub handle_write : ℕ → List Sent → Check → Checker → Checker
unfolding end_write write_loop
handle_write now answers check c =
    end_write now check (write_loop answers (length check.request) check.write_offset) c

-- What `recv` answers: the bytes it returns, none at the end of the stream, or -1 with an `errno`.
pub data Received : Type 0 where
  received : Bytes → Received
  recv_interrupted : Received
  recv_would_block : Received
  recv_error : Received

-- How the loop of `handleRead` is left: it waits for more, a full or broken read fails the check, or
-- the check is finished.
pub data ReadEnd : Type 0 where
  read_waits : Bytes → ReadEnd
  read_fails : ReadEnd
  read_finishes : Bool → ReadEnd

abbrev pub ok_line : Bytes
ok_line = codes "HTTP/1.1 200 OK"

-- `check.response.find("HTTP/1.1 200 OK") != std::string::npos`.
unfoldable pub has_ok : Bytes → Bool
unfolding find_text
has_ok response = elim (find_text ok_line response) [ none ↦ false | some _ ↦ true ]

-- What `recv` is asked for: at most its buffer, and at most what the response may still hold.
abbrev pub recv_size : Bytes → ℕ
recv_size response = min 1024 (max_response_size - length response)

-- The loop of `handleRead` on `check.response`. The list is as in `write_loop`.
unfoldable pub read_loop : List Received → Bytes → ReadEnd
unfolding has_ok
read_loop [] response =
    if ltb (length response) max_response_size then read_waits response else read_fails
read_loop (received bytes ∷ answers) response =
    let chunk = take (recv_size response) bytes in
    let rest = read_loop answers (response ++ chunk) in
    if ltb (length response) max_response_size
    then if null chunk
      then read_finishes false
      else if has_ok (response ++ chunk)
      then read_finishes true
      else rest
    else read_fails
read_loop (recv_interrupted ∷ answers) response =
    let rest = read_loop answers response in
    if ltb (length response) max_response_size then rest else read_fails
read_loop (recv_would_block ∷ answers) response =
    if ltb (length response) max_response_size then read_waits response else read_fails
read_loop (recv_error ∷ answers) response = read_fails

unfoldable pub end_read : Check → ReadEnd → Checker → Checker
unfolding store fail_check finish_check
end_read check (read_waits response) c = store (record check { response = response }) c
end_read check read_fails c = fail_check check.fd c
end_read check (read_finishes healthy) c = finish_check check.fd healthy c

unfoldable pub handle_read : List Received → Check → Checker → Checker
unfolding end_read read_loop
handle_read answers check c = end_read check (read_loop answers check.response) c
