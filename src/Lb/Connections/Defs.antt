-- ===== src/Lb/Connections/Defs.antt =====
-- LoadBalancer.hpp: ConnectionPair without the fields that only the copying of bytes uses, and
-- closeConnection of LoadBalancer.cpp. The descriptor -1 is `none`. The calls of `epoll.remove` and
-- `close`, whose results the source does not read, are left out.
use aorta.Prelude.{
  ℕ, ◌+◌, ◌-◌, Bool, Option, none, some, [], ◌∷◌, Bytes, if◌then◌else◌, Map, lookup, erase,
}
use aorta.Lb.Backend.{Backend, BackendPool, modify}

-- `EPOLLRDHUP | EPOLLERR | EPOLLHUP` with `EPOLLOUT` or with `EPOLLIN`.
pub data Interest : Type 0 where
  for_output : Interest
  for_input : Interest

-- `current_backend_events` is `none` for 0.
pub record ConnectionPair : Type 0 where
  pub client_fd : ℕ
  pub backend_fd : Option ℕ
  pub current_backend_events : Option Interest
  pub backend_connecting : Bool
  pub closing : Bool
  pub backend_index : ℕ
  pub client_ip : Bytes

pub record Balancer : Type 0 where
  pub connections : Map ConnectionPair
  pub backend_to_client : Map ℕ
  pub backend_pool : BackendPool

-- `if(backend.connection_count > 0) backend.connection_count--;`, where `-` stops at 0.
unfoldable pub drop_connection : Backend → Backend
drop_connection b = record b { connection_count = b.connection_count - 1 }

unfoldable pub take_connection : Backend → Backend
take_connection b = record b {
  connection_count = b.connection_count + 1;
  total_connections = b.total_connections + 1;
}

-- What `closeConnection` does where `connection.backend_fd != -1`. `modify` writes nothing for an index
-- out of range, which is the source's guard.
unfoldable pub detach : ConnectionPair → Balancer → Balancer
unfolding erase modify drop_connection
detach connection s = elim (connection.backend_fd) [
  | none ↦ s
  | some fd ↦ record s {
    backend_to_client = erase fd s.backend_to_client;
    backend_pool = modify connection.backend_index drop_connection s.backend_pool;
  }
]

unfoldable pub forget : ℕ → Balancer → Balancer
unfolding erase
forget client_fd s = record s { connections = erase client_fd s.connections }

unfoldable pub close_connection : ℕ → Balancer → Balancer
unfolding lookup detach forget
close_connection client_fd s = elim (lookup client_fd s.connections) [
  | none ↦ s
  | some connection ↦ if connection.closing then s else forget client_fd (detach connection s)
]

-- The loop of `closeAllConnections`.
unfoldable pub detach_all : Map ConnectionPair → Balancer → Balancer
unfolding modify drop_connection
detach_all [] s = s
detach_all ((client_fd, connection) ∷ connections) s = elim (connection.backend_fd) [
  | none ↦ detach_all connections s
  | some fd ↦
      detach_all connections
        (record s { backend_pool = modify connection.backend_index drop_connection s.backend_pool })
]

unfoldable pub close_all_connections : Balancer → Balancer
unfolding detach_all
close_all_connections s = record (detach_all s.connections s) {
  connections = [];
  backend_to_client = [];
}
