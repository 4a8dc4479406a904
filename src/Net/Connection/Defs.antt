-- ===== src/Net/Connection/Defs.antt =====
-- Connection.hpp: the state of a connection. `wire` stands for the socket: the bytes that `send` and
-- `sendfile` took, in order. `closed_files` lists the file descriptors that were closed.
use aorta.Prelude.{ℕ, Bool, false, Option, List, [], Bytes}
use aorta.Http.Parser.Defs
use aorta.Http.Parser.Defs.{Parser}

abbrev pub max_receive_buffer : ℕ
max_receive_buffer = 65536

abbrev pub max_output_queue_size : ℕ
max_output_queue_size = 8388608

pub data OutputType : Type 0 where
  memory : OutputType
  file : OutputType

-- `file_fd` is `none` for -1.
pub record OutputBuffer : Type 0 where
  pub type : OutputType
  pub content : Bytes
  pub offset : ℕ
  pub file_fd : Option ℕ
  pub file_size : ℕ

pub record Connection : Type 0 where
  pub fd : ℕ
  pub reactor_id : ℕ
  pub receive_buffer : Bytes
  pub output_queue : List OutputBuffer
  pub output_queue_size : ℕ
  pub parser : Parser
  pub close_after_write : Bool
  pub wire : Bytes
  pub closed_files : List ℕ

-- The constructor.
abbrev pub new_connection : ℕ → ℕ → Connection
new_connection fd reactor_id = record {
  fd = fd;
  reactor_id = reactor_id;
  receive_buffer = [];
  output_queue = [];
  output_queue_size = 0;
  parser = Defs.initial;
  close_after_write = false;
  wire = [];
  closed_files = [];
}
