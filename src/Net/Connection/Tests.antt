-- ===== src/Net/Connection/Tests.antt =====
-- Connection.cpp: runs on small inputs, and the theorems at them.
use aorta.Prelude.{ℕ, ◌≡◌, refl, ◌++◌, false, some, List, [], ◌∷◌, Bytes, codes}
use aorta.Net.Connection.Defs.{Connection, new_connection}
use aorta.Net.Connection.Output.{
  queue_response, queue_file, queue_opened, offered_by, pop_sent, pop_output, size_by, transfer,
  Transfer, room, blocked, interrupted, complete, write,
}
use aorta.Net.Connection.Complete.{write_complete-stream}
use aorta.Net.Connection.Run.{Serves, IsServed, Serves-IsServed}
use aorta.Net.Connection.Stream.{stream, pending, write-stream}

abbrev files : ℕ → Bytes
files fd = codes "<p>file</p>"

abbrev answered : Connection
unfolding queue_response
answered = (queue_response (codes "HTTP/1.1 200 OK") (new_connection 4 0)).1

-- The response and three bytes of the file.
abbrev two_outputs : Connection
unfolding queue_file queue_opened
two_outputs = (queue_file (some 9) 3 answered).1

abbrev answers : List Transfer
answers = room 3 ∷ interrupted ∷ room 100 ∷ room 1 ∷ room 0 ∷ []

writes_in_parts : (write files answers two_outputs).0 ≡ complete
unfolding write pop_sent transfer offered_by pop_output size_by two_outputs answered
writes_in_parts = refl

blocks_in_the_file :
    (write files (room 100 ∷ room 0 ∷ blocked ∷ []) two_outputs).1.wire ≡ codes "HTTP/1.1 200 OK<"
unfolding write pop_sent transfer offered_by pop_output size_by two_outputs answered
blocks_in_the_file = refl

refuses_nine_megabytes : (queue_file (some 9) 9437184 answered).0 ≡ false
unfolding queue_file
refuses_nine_megabytes = refl

write-stream_example : stream files (write files answers two_outputs).1 ≡ stream files two_outputs
write-stream_example = write-stream files answers two_outputs

write_complete-stream_example :
    ((write files answers two_outputs).1.output_queue ≡ [])
    × ((write files answers two_outputs).1.wire ≡ [] ++ pending files two_outputs.output_queue)
unfolding pending two_outputs answered
write_complete-stream_example = write_complete-stream files answers two_outputs writes_in_parts

served_twice :
    Serves files ((codes "HTTP/1.1 200 OK") ++ codes "<p>") (write files answers two_outputs).1
unfolding queue_response queue_file queue_opened
served_twice = Serves.wrote answers _ two_outputs (
    Serves.sends_file 9 3 _ answered two_outputs
      (Serves.responded (codes "HTTP/1.1 200 OK") [] (new_connection 4 0) answered
        (Serves.opened 4 0) refl)
      refl)

Serves-IsServed_example :
    IsServed files ((codes "HTTP/1.1 200 OK") ++ codes "<p>") (write files answers two_outputs).1
Serves-IsServed_example = Serves-IsServed files _ (write files answers two_outputs).1 served_twice
