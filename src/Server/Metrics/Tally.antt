-- ===== src/Server/Metrics/Tally.antt =====
-- Metrics.cpp: what the buckets count.
use aorta.Prelude.{
  ℕ, suc, ◌+◌, ◌≤◌, ◌<◌, max, ◌≡◌, refl, sym, ap, ap₂, ◌∙◌, Bool, true, false, ◌&&◌, List, [], ◌∷◌,
  leb, leb→le, both, length, count_if, if_intro, arith,
}
use aorta.Server.Metrics.Defs.{
  two_64, add_64, latency_buckets_us, Metrics, fresh_metrics, count_sample, record_latency,
}

abbrev pub up_to : ℕ → List ℕ → ℕ
up_to bound samples = count_if (λ s. leb s bound) samples

-- How many samples are at least `lo`, and how many lie between two numbers.
abbrev pub from : ℕ → List ℕ → ℕ
from lo samples = count_if (λ s. leb lo s) samples

abbrev pub between : ℕ → ℕ → List ℕ → ℕ
between lo hi samples = count_if (λ s. leb lo s && leb s hi) samples

-- The buckets that a list of samples ought to leave: the last takes what is too long for any.
unfoldable pub tally : ℕ → List ℕ → List ℕ → List ℕ
tally lo [] samples = []
tally lo (bound ∷ []) samples = from lo samples ∷ []
tally lo (bound ∷ next ∷ bounds) samples =
    between lo bound samples ∷ tally (suc bound) (next ∷ bounds) samples

unfoldable pub Ascending : ℕ → List ℕ → Type 0
Ascending lo [] = Unit {0}
Ascending lo (bound ∷ bounds) = (lo ≤ bound) × Ascending (suc bound) bounds

pub count_if-le : (p : ℕ → Bool) (samples : List ℕ) → count_if p samples ≤ length samples
count_if-le p [] = omega arith
count_if-le p (s ∷ samples) = ground (arith, count_if-le p samples)

pub add_64-fits : (a b : ℕ) → a + b < two_64 → add_64 a b ≡ a + b
add_64-fits a b h = omega (arith, h)

count_if-yes :
    (p : ℕ → Bool) (s : ℕ) (samples : List ℕ)
    → p s ≡ true
    → count_if p (s ∷ samples) ≡ count_if p samples + 1
count_if-yes p s samples h = rw h (omega arith)

count_if-no :
    (p : ℕ → Bool) (s : ℕ) (samples : List ℕ)
    → p s ≡ false
    → count_if p (s ∷ samples) ≡ count_if p samples
count_if-no p s samples h = rw h (omega arith)

leb-above : (lo s : ℕ) → s < lo → leb lo s ≡ false
leb-above lo s h = ground arith

leb-upto : (lo s : ℕ) → lo ≤ s → leb lo s ≡ true
leb-upto lo s h = ground arith

above : (s bound : ℕ) → leb s bound ≡ false → suc bound ≤ s
above s bound h = ground arith

and_false : (a b : Bool) → b ≡ false → (a && b) ≡ false
and_false true b h = h
and_false false b h = refl

-- A sample below a bucket's range does not count there.
tally-below :
    (lo s : ℕ) (bounds samples : List ℕ)
    → Ascending lo bounds
    → s < lo
    → tally lo bounds (s ∷ samples) ≡ tally lo bounds samples
unfolding tally Ascending
tally-below lo s [] samples a h = refl
tally-below lo s (bound ∷ []) samples a h =
    ap (λ n. n ∷ []) (count_if-no (λ x. leb lo x) s samples (leb-above lo s h))
tally-below lo s (bound ∷ next ∷ bounds) samples (b, a) h =
    ap₂ ◌∷◌
      (count_if-no (λ x. leb lo x && leb x bound) s samples
        (ap (λ t. t && leb s bound) (leb-above lo s h)))
      (tally-below (suc bound) s (next ∷ bounds) samples a (omega (arith, b, h)))

count_sample-tally :
    (lo s : ℕ) (bounds samples : List ℕ)
    → Ascending lo bounds
    → lo ≤ s
    → length samples + 1 < two_64
    → count_sample s bounds (tally lo bounds samples) ≡ tally lo bounds (s ∷ samples)
unfolding tally Ascending count_sample
count_sample-tally lo s [] samples a h fits = refl
count_sample-tally lo s (bound ∷ []) samples a h fits =
    ap (λ n. n ∷ [])
      (add_64-fits (from lo samples) 1 (omega (arith, fits, count_if-le (λ x. leb lo x) samples))
        ∙ sym (count_if-yes (λ x. leb lo x) s samples (leb-upto lo s h)))
count_sample-tally lo s (bound ∷ next ∷ bounds) samples (b, a) h fits =
    let inside = λ (x : ℕ). leb lo x && leb x bound in
    let rest = tally (suc bound) (next ∷ bounds) samples in
    if_intro (λ (buckets : List ℕ). buckets ≡ tally lo (bound ∷ next ∷ bounds) (s ∷ samples))
      (leb s bound)
      (λ t.
        ap₂ ◌∷◌
          (add_64-fits (between lo bound samples) 1
              (omega (arith, fits, count_if-le inside samples))
            ∙ sym (count_if-yes inside s samples (both (leb-upto lo s h) t)))
          (sym (
            tally-below (suc bound) s (next ∷ bounds) samples a (omega (arith, leb→le s bound t)))))
      (λ t.
        ap₂ ◌∷◌ (sym (count_if-no inside s samples (and_false (leb lo s) (leb s bound) t)))
          (count_sample-tally (suc bound) s (next ∷ bounds) samples a (above s bound t) fits))

-- What the metrics are after a list of latencies, the last one first.
unfoldable pub recorded : List ℕ → Metrics
unfolding record_latency
recorded [] = fresh_metrics
recorded (s ∷ samples) = record_latency s (recorded samples)

abbrev pub longest : List ℕ → ℕ
longest [] = 0
longest (s ∷ samples) = max s (longest samples)

pub buckets-Ascending : Ascending 0 latency_buckets_us
unfolding Ascending
buckets-Ascending = ground arith

pub recorded-count :
    (samples : List ℕ) → length samples < two_64 → (recorded samples).latency_count ≡ length samples
unfolding recorded record_latency
recorded-count [] h = refl
recorded-count (s ∷ samples) h =
    ap (λ n. add_64 n 1) (recorded-count samples (omega arith))
    ∙ add_64-fits (length samples) 1 (omega arith)
    ∙ omega arith

pub recorded-tally :
    (samples : List ℕ)
    → length samples < two_64
    → (recorded samples).latency_buckets ≡ tally 0 latency_buckets_us samples
unfolding recorded record_latency tally
recorded-tally [] h = refl
recorded-tally (s ∷ samples) h =
    ap (count_sample s latency_buckets_us) (recorded-tally samples (omega arith))
    ∙ count_sample-tally 0 s latency_buckets_us samples buckets-Ascending (omega arith)
        (omega arith)

pub recorded-max : (samples : List ℕ) → (recorded samples).latency_max_us ≡ longest samples
unfolding recorded record_latency
recorded-max [] = refl
recorded-max (s ∷ samples) = ground (arith, recorded-max samples)
