-- ===== src/Lb/Connections/Tests.antt =====
-- A balancer with one connection to the first of two backends, and the theorems at it.
use aorta.Prelude.{ℕ, zero, suc, ◌≡◌, refl, true, false, some, none, [], ◌∷◌, codes, lookup, arith}
use aorta.Lb.Backend.{Backend}
use aorta.Lb.Connections.Defs.{for_input, ConnectionPair, Balancer, close_all_connections}
use aorta.Lb.Connections.Failover.{Attempt, connect_done, connect_refused, failover_connection}
use aorta.Lb.Selection.{round_robin}
use aorta.Lb.Connections.Connect.{connect_client_to_backend}
use aorta.Lb.Connections.Connected.{connect_client_to_backend-Counted}
use aorta.Lb.Connections.Counted.{IsCounted, count_at, weight}
use aorta.Lb.Connections.Kept.{Counted}
use aorta.Lb.Connections.Accounts.{failover_connection-Counted, close_all_connections-count_at}

abbrev backend : ℕ → Backend
backend count = record {
  host = codes "server1";
  port = 8081;
  healthy = true;
  consecutive_failures = 0;
  connection_count = count;
  total_connections = 1;
  failed_connections = 0;
  failovers = 0;
}

abbrev client : ConnectionPair
client = record {
  client_fd = 5;
  backend_fd = some 6;
  current_backend_events = some for_input;
  backend_connecting = false;
  closing = false;
  backend_index = 0;
  client_ip = codes "10.0.0.1";
}

abbrev balancer : Balancer
balancer = record {
  connections = (5, client) ∷ [];
  backend_to_client = (6, 5) ∷ [];
  backend_pool = backend 1 ∷ backend 0 ∷ [];
}

abbrev second_answers : ℕ → Attempt
second_answers i = record { addresses = connect_refused ∷ connect_done 7 ∷ []; added = true }

failover-moves : (failover_connection 5 0 second_answers balancer).1.backend_to_client ≡ (7, 5) ∷ []
unfolding failover_connection
failover-moves = refl

balancer-Counted : Counted balancer
unfolding IsCounted count_at weight
balancer-Counted zero h = refl
balancer-Counted (suc zero) h = refl
balancer-Counted (suc (suc i)) h = absurd (omega arith)

client_index : (c : ConnectionPair) → lookup 5 balancer.connections ≡ some c → c.backend_index ≡ 0
unfolding lookup
client_index c e = ground arith

failover_connection-Counted_example : Counted (failover_connection 5 0 second_answers balancer).1
failover_connection-Counted_example =
    failover_connection-Counted 5 0 second_answers balancer client_index balancer-Counted

close_all_connections-count_at_example :
    count_at (close_all_connections balancer).backend_pool 0 ≡ 0
close_all_connections-count_at_example =
    close_all_connections-count_at balancer 0 balancer-Counted (omega arith)

abbrev waiting : Balancer
waiting = record {
  connections = (5, record client { backend_fd = none; current_backend_events = none }) ∷ [];
  backend_to_client = [];
  backend_pool = backend 0 ∷ backend 0 ∷ [];
}

waiting-Counted : Counted waiting
unfolding IsCounted count_at weight
waiting-Counted zero h = refl
waiting-Counted (suc zero) h = refl
waiting-Counted (suc (suc i)) h = absurd (omega arith)

waiting_free : (c : ConnectionPair) → lookup 5 waiting.connections ≡ some c → c.backend_fd ≡ none
unfolding lookup
waiting_free c e = ground arith

abbrev first_refuses : ℕ → Attempt
first_refuses zero = record { addresses = connect_refused ∷ []; added = true }
first_refuses (suc i) = record { addresses = connect_done 7 ∷ []; added = true }

connect-second :
    (connect_client_to_backend round_robin [] first_refuses 5 0 waiting).2.backend_to_client
    ≡ (7, 5) ∷ []
unfolding connect_client_to_backend
connect-second = refl

connect_client_to_backend-Counted_example :
    Counted (connect_client_to_backend round_robin [] first_refuses 5 0 waiting).2
connect_client_to_backend-Counted_example =
    connect_client_to_backend-Counted round_robin [] first_refuses 5 0 waiting waiting_free
      waiting-Counted
