-- ===== src/Server/Metrics/Percentiles.antt =====
-- Metrics.cpp: what the percentiles say about the latencies that were recorded.
use aorta.Prelude.{
  ℕ, suc, ◌+◌, ◌*◌, ◌/◌, ◌%◌, ◌≤◌, ◌<◌, ◌≡◌, refl, sym, ap, ap₂, ◌∙◌, Bool, true, false, ◌==◌, List,
  [], ◌∷◌, if◌then◌else◌, ltb, leb, null, length, count_if, if_intro, arith,
}
use aorta.Server.Metrics.Defs.{
  two_64, add_64, latency_buckets_us, Metrics, find_bound, get_p50_latency_us, get_p95_latency_us,
  get_p99_latency_us,
}
use aorta.Server.Metrics.Tally.{
  up_to, from, between, tally, Ascending, count_if-le, add_64-fits, recorded, longest,
  buckets-Ascending, recorded-count, recorded-tally, recorded-max,
}

-- The first bound that at least `target` samples do not exceed, or the last bound.
unfoldable pub first_bound : ℕ → List ℕ → List ℕ → ℕ
first_bound target [] samples = 5000000
first_bound target (bound ∷ bounds) samples =
    let rest = first_bound target bounds samples in
    if leb target (up_to bound samples) then bound else rest

abbrev below : ℕ → List ℕ → ℕ
below lo samples = count_if (λ s. ltb s lo) samples

below-between :
    (lo bound : ℕ) (samples : List ℕ)
    → lo ≤ bound
    → below lo samples + between lo bound samples ≡ up_to bound samples
below-between lo bound [] h = refl
below-between lo bound (s ∷ samples) h = ground (arith, below-between lo bound samples h)

below-suc : (bound : ℕ) (samples : List ℕ) → up_to bound samples ≡ below (suc bound) samples
below-suc bound [] = refl
below-suc bound (s ∷ samples) = ground (arith, below-suc bound samples)

-- The bounds end with the one that `find_bound` falls back to.
unfoldable EndsAtLast : List ℕ → Type 0
EndsAtLast [] = ⊥
EndsAtLast (bound ∷ []) = bound ≡ 5000000
EndsAtLast (bound ∷ next ∷ bounds) = EndsAtLast (next ∷ bounds)

same_branches : {x y : ℕ} (b c : Bool) → x ≡ y → (if b then x else y) ≡ (if c then x else y)
same_branches true true e = refl
same_branches true false e = e
same_branches false true e = sym e
same_branches false false e = refl

find_bound-tally :
    (target lo : ℕ) (bounds samples : List ℕ)
    → Ascending lo bounds
    → EndsAtLast bounds
    → length samples < two_64
    → find_bound target (below lo samples) bounds (tally lo bounds samples)
      ≡ first_bound target bounds samples
unfolding find_bound first_bound tally Ascending EndsAtLast
find_bound-tally target lo [] samples a e h = absurd e
find_bound-tally target lo (bound ∷ []) samples a e h =
    same_branches (leb target (add_64 (below lo samples) (from lo samples)))
      (leb target (up_to bound samples)) e
find_bound-tally target lo (bound ∷ next ∷ bounds) samples (b, a) e h =
    let count = length samples in
    let sum =
      add_64-fits (below lo samples) (between lo bound samples)
        (omega (arith, h, below-between lo bound samples b, count_if-le (λ x. leb x bound) samples))
      ∙ below-between lo bound samples b in
    let others = tally (suc bound) (next ∷ bounds) samples in
    ap (λ n. if leb target n then bound else find_bound target n (next ∷ bounds) others) sum
    ∙ ap (λ x. if leb target (up_to bound samples) then bound else x)
        (ap (λ n. find_bound target n (next ∷ bounds) others) (below-suc bound samples)
          ∙ find_bound-tally target (suc bound) (next ∷ bounds) samples a e h)

-- What the getters ought to return for the latencies that were recorded.
abbrev pub percentile : ℕ → List ℕ → ℕ
unfolding first_bound
percentile target samples =
    if null samples then 0 else first_bound target latency_buckets_us samples

pub record IsSummary (samples : List ℕ) (m : Metrics) : Type 0 where
  pub counted : m.latency_count ≡ length samples
  pub greatest : m.latency_max_us ≡ longest samples
  pub p50 : get_p50_latency_us m ≡ percentile ((length samples + 1) / 2) samples
  pub p95 : get_p95_latency_us m ≡ percentile ((length samples * 95 + 99) / 100) samples
  pub p99 : get_p99_latency_us m ≡ percentile ((length samples * 99 + 99) / 100) samples

bounds-EndsAtLast : EndsAtLast latency_buckets_us
unfolding EndsAtLast
bounds-EndsAtLast = refl

-- The common part of the three getters.
length-null : (samples : List ℕ) → (length samples == 0) ≡ null samples
length-null [] = refl
length-null (s ∷ samples) = ground arith

below_zero : (samples : List ℕ) → below 0 samples ≡ 0
below_zero [] = refl
below_zero (s ∷ samples) = ground (arith, below_zero samples)

getter-percentile :
    (f : ℕ → ℕ) (samples : List ℕ)
    → length samples < two_64
    → (if (recorded samples).latency_count == 0
        then 0
        else find_bound
            (f (recorded samples).latency_count)
            0
            latency_buckets_us
            (recorded samples).latency_buckets)
      ≡ percentile (f (length samples)) samples
unfolding find_bound first_bound
getter-percentile f samples h =
    ap₂ (λ n buckets. if n == 0 then 0 else find_bound (f n) 0 latency_buckets_us buckets)
      (recorded-count samples h) (recorded-tally samples h)
    ∙ ap₂ (λ b x. if b then 0 else x) (length-null samples)
        (ap
            (λ n.
              find_bound (f (length samples)) n latency_buckets_us
                (tally 0 latency_buckets_us samples))
            (sym (below_zero samples))
          ∙ find_bound-tally (f (length samples)) 0 latency_buckets_us samples buckets-Ascending
              bounds-EndsAtLast h)

rank : (n p : ℕ) → n * p + 99 < two_64 → add_64 (n * p % two_64) 99 / 100 ≡ (n * p + 99) / 100
rank n p h = ap (λ x. x / 100) (omega (arith, h))

-- After any latencies, in whatever order they were recorded and few enough that 99 times their number
-- and 99 stay below 2^64: `latency_count` is their number, `latency_max_us` the longest, and the
-- percentiles are 0 if there are none, and else the first of the buckets' bounds that half of them, 95 or
-- 99 of 100 of them (rounded up) do not exceed, or the last bound if no bound is that high.
pub recorded-IsSummary :
    (samples : List ℕ) → length samples * 99 + 99 < two_64 → IsSummary samples (recorded samples)
unfolding get_p50_latency_us get_p95_latency_us get_p99_latency_us
recorded-IsSummary samples h =
    let few : length samples < two_64 = omega (arith, h) in
    let percent = λ (n : ℕ). percentile n samples in
    record {
      counted = recorded-count samples few;
      greatest = recorded-max samples;
      p50 =
          getter-percentile (λ n. add_64 n 1 / 2) samples few
          ∙ ap (λ n. percent (n / 2)) (add_64-fits (length samples) 1 (omega (arith, h)));
      p95 =
          getter-percentile (λ n. add_64 (n * 95 % two_64) 99 / 100) samples few
          ∙ ap percent (rank (length samples) 95 (omega (arith, h)));
      p99 =
          getter-percentile (λ n. add_64 (n * 99 % two_64) 99 / 100) samples few
          ∙ ap percent (rank (length samples) 99 h);
    }

first_bound-above :
    (target lo : ℕ) (bounds samples : List ℕ)
    → Ascending lo bounds
    → EndsAtLast bounds
    → lo ≤ first_bound target bounds samples
unfolding first_bound Ascending EndsAtLast
first_bound-above target lo [] samples a e = absurd e
first_bound-above target lo (bound ∷ []) samples (b, a) e =
    if_intro (λ n. lo ≤ n) (leb target (up_to bound samples)) (λ t. b) (λ t. omega (arith, b, e))
first_bound-above target lo (bound ∷ next ∷ bounds) samples (b, a) e =
    if_intro (λ n. lo ≤ n) (leb target (up_to bound samples)) (λ t. b)
      (λ t. omega (arith, b, first_bound-above target (suc bound) (next ∷ bounds) samples a e))

first_bound_mono :
    (low high lo : ℕ) (bounds samples : List ℕ)
    → Ascending lo bounds
    → EndsAtLast bounds
    → low ≤ high
    → first_bound low bounds samples ≤ first_bound high bounds samples
unfolding first_bound Ascending EndsAtLast
first_bound_mono low high lo [] samples a e h = absurd e
first_bound_mono low high lo (bound ∷ []) samples a e h =
    omega (arith, same_branches (leb low (up_to bound samples)) (leb high (up_to bound samples)) e)
first_bound_mono low high lo (bound ∷ next ∷ bounds) samples (b, a) e h = ground (
  arith,
  first_bound_mono low high (suc bound) (next ∷ bounds) samples a e h,
  first_bound-above high (suc bound) (next ∷ bounds) samples a e,
)

percentile_mono :
    (low high : ℕ) (samples : List ℕ)
    → low ≤ high
    → percentile low samples ≤ percentile high samples
unfolding first_bound Ascending EndsAtLast
percentile_mono low high [] h = omega arith
percentile_mono low high (s ∷ samples) h =
    first_bound_mono low high 0 latency_buckets_us (s ∷ samples) buckets-Ascending bounds-EndsAtLast
      h

-- After any latencies, few enough that 99 times their number and 99 stay below 2^64, the median is at
-- most the 95th percentile, and that at most the 99th.
pub recorded-percentiles :
    (samples : List ℕ)
    → length samples * 99 + 99 < two_64
    → (get_p50_latency_us (recorded samples) ≤ get_p95_latency_us (recorded samples))
      × (get_p95_latency_us (recorded samples) ≤ get_p99_latency_us (recorded samples))
recorded-percentiles samples h =
    let n = length samples in
    let k = recorded-IsSummary samples h in
    (
      omega (
        arith,
        k.p50,
        k.p95,
        percentile_mono ((n + 1) / 2) ((n * 95 + 99) / 100) samples (omega arith),
      ),
      omega (
        arith,
        k.p95,
        k.p99,
        percentile_mono ((n * 95 + 99) / 100) ((n * 99 + 99) / 100) samples (omega arith),
      ),
    )
