-- ===== src/Server/Metrics/Defs.antt =====
-- Metrics.cpp. Each atomic call is one step; the counters are 64 bits wide.
use aorta.Prelude.{
  ℕ, ◌+◌, ◌-◌, ◌*◌, ◌/◌, ◌%◌, List, [], ◌∷◌, ◌++◌, if◌then◌else◌, ltb, leb, ◌==◌, replicate,
  to_string, Bytes, codes,
}

abbrev pub two_64 : ℕ
two_64 = 0x1_0000_0000_0000_0000

-- `fetch_add` and `+` on `std::uint64_t`.
abbrev pub add_64 : ℕ → ℕ → ℕ
add_64 a b = (a + b) % two_64

abbrev pub latency_buckets_us : List ℕ
latency_buckets_us =
    100 ∷ 250 ∷ 500 ∷ 1000 ∷ 2000 ∷ 5000 ∷ 10000 ∷ 25000 ∷ 50000 ∷ 100000 ∷ 250000 ∷ 500000
    ∷ 1000000 ∷ 5000000 ∷ []

pub record Metrics : Type 0 where
  pub requests_total : ℕ
  pub responses_total : ℕ
  pub active_connections : ℕ
  pub errors_total : ℕ
  pub bytes_received : ℕ
  pub bytes_sent : ℕ
  pub latency_count : ℕ
  pub latency_total_us : ℕ
  pub latency_max_us : ℕ
  pub latency_buckets : List ℕ

abbrev pub fresh_metrics : Metrics
fresh_metrics = record {
  requests_total = 0;
  responses_total = 0;
  active_connections = 0;
  errors_total = 0;
  bytes_received = 0;
  bytes_sent = 0;
  latency_count = 0;
  latency_total_us = 0;
  latency_max_us = 0;
  latency_buckets = replicate 14 0;
}

unfoldable pub increment_requests : Metrics → Metrics
increment_requests m = record m { requests_total = add_64 m.requests_total 1 }

unfoldable pub increment_responses : Metrics → Metrics
increment_responses m = record m { responses_total = add_64 m.responses_total 1 }

unfoldable pub increment_active_connections : Metrics → Metrics
increment_active_connections m = record m { active_connections = add_64 m.active_connections 1 }

-- The compare-and-exchange loop: nothing below 0.
unfoldable pub decrement_active_connections : Metrics → Metrics
decrement_active_connections m =
    if ltb 0 m.active_connections
    then record m { active_connections = m.active_connections - 1 }
    else m

unfoldable pub increment_errors : Metrics → Metrics
increment_errors m = record m { errors_total = add_64 m.errors_total 1 }

unfoldable pub add_bytes_received : ℕ → Metrics → Metrics
add_bytes_received bytes m = record m { bytes_received = add_64 m.bytes_received bytes }

unfoldable pub add_bytes_sent : ℕ → Metrics → Metrics
add_bytes_sent bytes m = record m { bytes_sent = add_64 m.bytes_sent bytes }

-- The loop over the buckets: the first whose bound is not below the sample counts it, or the last.
unfoldable pub count_sample : ℕ → List ℕ → List ℕ → List ℕ
count_sample microseconds [] buckets = buckets
count_sample microseconds (bound ∷ bounds) [] = []
count_sample microseconds (bound ∷ []) (n ∷ buckets) = add_64 n 1 ∷ buckets
count_sample microseconds (bound ∷ next ∷ bounds) (n ∷ buckets) =
    let rest = count_sample microseconds (next ∷ bounds) buckets in
    if leb microseconds bound then add_64 n 1 ∷ buckets else n ∷ rest

unfoldable pub record_latency : ℕ → Metrics → Metrics
unfolding count_sample
record_latency microseconds m = record m {
  latency_count = add_64 m.latency_count 1;
  latency_total_us = add_64 m.latency_total_us microseconds;
  latency_max_us = if ltb m.latency_max_us microseconds then microseconds else m.latency_max_us;
  latency_buckets = count_sample microseconds latency_buckets_us m.latency_buckets;
}

-- The loop of the three percentiles: the bound of the first bucket at which the sum reaches the target,
-- or the last bound.
unfoldable pub find_bound : ℕ → ℕ → List ℕ → List ℕ → ℕ
find_bound target cumulative (bound ∷ bounds) (n ∷ buckets) =
    let sum = add_64 cumulative n in
    let rest = find_bound target sum bounds buckets in if leb target sum then bound else rest
find_bound target cumulative _ _ = 5000000

unfoldable pub get_p50_latency_us : Metrics → ℕ
unfolding find_bound
get_p50_latency_us m =
    if m.latency_count == 0
    then 0
    else find_bound (add_64 m.latency_count 1 / 2) 0 latency_buckets_us m.latency_buckets

unfoldable pub get_p95_latency_us : Metrics → ℕ
unfolding find_bound
get_p95_latency_us m =
    if m.latency_count == 0
    then 0
    else find_bound (add_64 (m.latency_count * 95 % two_64) 99 / 100) 0 latency_buckets_us
        m.latency_buckets

unfoldable pub get_p99_latency_us : Metrics → ℕ
unfolding find_bound
get_p99_latency_us m =
    if m.latency_count == 0
    then 0
    else find_bound (add_64 (m.latency_count * 99 % two_64) 99 / 100) 0 latency_buckets_us
        m.latency_buckets

-- How a stream prints a quotient of two numbers as a `double`, and the average of a sum in milliseconds.
pub record Doubles : Type 0 where
  pub quotient : ℕ → ℕ → Bytes
  pub average : (total : ℕ) → (count : ℕ) → Bytes

unfoldable pub get_average_latency_ms : Doubles → Metrics → Bytes
get_average_latency_ms doubles m =
    if m.latency_count == 0 then codes "0" else doubles.average m.latency_total_us m.latency_count

abbrev pub line : Bytes → Bytes → Bytes → Bytes
line name value rest = name ++ (value ++ (b'\n' ∷ rest))

unfoldable pub bucket_lines : ℕ → List ℕ → List ℕ → Bytes
unfolding to_string
bucket_lines cumulative (bound ∷ bounds) (n ∷ buckets) =
    let sum = add_64 cumulative n in
    (codes "aorta_latency_bucket{le=\"")
    ++ (to_string bound ++ line (codes "us\"} ") (to_string sum) (bucket_lines sum bounds buckets))
bucket_lines cumulative _ _ = []

unfoldable pub serialize : Doubles → Metrics → Bytes
unfolding to_string bucket_lines get_average_latency_ms get_p50_latency_us get_p95_latency_us
    get_p99_latency_us
serialize doubles m = line (codes "aorta_requests_total ") (to_string m.requests_total) (
    line (codes "aorta_responses_total ") (to_string m.responses_total) (
      line (codes "aorta_active_connections ") (to_string m.active_connections) (
        line (codes "aorta_errors_total ") (to_string m.errors_total) (
          line (codes "aorta_bytes_received_total ") (to_string m.bytes_received) (
            line (codes "aorta_bytes_sent_total ") (to_string m.bytes_sent) (
              line (codes "aorta_latency_samples_total ") (to_string m.latency_count) (
                line (codes "aorta_latency_sum_seconds ")
                  (doubles.quotient m.latency_total_us 1000000)
                  (line (codes "aorta_latency_avg_ms ") (get_average_latency_ms doubles m) (
                    line (codes "aorta_latency_p50_ms ")
                      (doubles.quotient (get_p50_latency_us m) 1000)
                      (line (codes "aorta_latency_p95_ms ")
                        (doubles.quotient (get_p95_latency_us m) 1000)
                        (line (codes "aorta_latency_p99_ms ")
                          (doubles.quotient (get_p99_latency_us m) 1000)
                          (line (codes "aorta_latency_max_ms ")
                            (doubles.quotient m.latency_max_us 1000)
                            (bucket_lines 0 latency_buckets_us m.latency_buckets)))))))))))))
