-- ===== src/Server/Metrics/Tests.antt =====
-- Metrics.cpp: runs on small inputs, and the theorems at them.
use aorta.Prelude.{ℕ, ◌≤◌, ◌≡◌, refl, List, [], ◌∷◌, arith}
use aorta.Server.Metrics.Defs.{
  get_p50_latency_us, get_p95_latency_us, get_p99_latency_us, fresh_metrics,
  decrement_active_connections,
}
use aorta.Server.Metrics.Tally.{recorded}
use aorta.Server.Metrics.Percentiles.{IsSummary, recorded-IsSummary, recorded-percentiles}

abbrev latencies : List ℕ
latencies = 120 ∷ 90 ∷ 7000000 ∷ 450 ∷ []

recorded-IsSummary_example : IsSummary latencies (recorded latencies)
recorded-IsSummary_example = recorded-IsSummary latencies (omega arith)

recorded-percentiles_example :
    (get_p50_latency_us (recorded latencies) ≤ get_p95_latency_us (recorded latencies))
    × (get_p95_latency_us (recorded latencies) ≤ get_p99_latency_us (recorded latencies))
recorded-percentiles_example = recorded-percentiles latencies (omega arith)

median_is_a_bound : get_p50_latency_us (recorded latencies) ≡ 250
unfolding get_p50_latency_us recorded
median_is_a_bound = refl

too_long_for_any_bucket : get_p99_latency_us (recorded latencies) ≡ 5000000
unfolding get_p99_latency_us recorded
too_long_for_any_bucket = refl

stays_at_zero : decrement_active_connections fresh_metrics ≡ fresh_metrics
unfolding decrement_active_connections
stays_at_zero = refl
