-- ===== src/Worker/Channels.antt =====
-- WorkerPool.cpp: the completions that wait for a reactor, counted.
use aorta.Prelude.{
  some-inj, ℕ, zero, suc, ◌+◌, ◌≡◌, refl, ap, Bool, true, false, some, List, [], ◌∷◌, ◌==◌,
  get_elem?, set, replicate, arith,
}
use aorta.Worker.Defs.{CompletionChannel}
use aorta.Worker.Run.{count, when, waiting}

pub no_completions :
    (w r n : ℕ) → count w (waiting (replicate n (record { completions = []; event = 0 })) r) ≡ 0
unfolding waiting
no_completions w r zero = refl
no_completions w zero (suc n) = refl
no_completions w (suc r) (suc n) = no_completions w r n

-- What is written to a channel counts in place of what stood there, for its reactor alone.
pub count-waiting :
    (r w : ℕ) (channels : List CompletionChannel) (i : ℕ) (v : CompletionChannel)
    {c : CompletionChannel}
    → get_elem? channels i ≡ some c
    → count w (waiting (set channels i v) r) + when (i == r) (count w c.completions)
      ≡ count w (waiting channels r) + when (i == r) (count w v.completions)
unfolding waiting
count-waiting r w [] i v e = cc
count-waiting zero w (x ∷ channels) zero v e =
    omega (arith, ap (λ (c : CompletionChannel). count w c.completions) (some-inj e))
count-waiting (suc r) w (x ∷ channels) zero v e = ground arith
count-waiting zero w (x ∷ channels) (suc i) v e = ground arith
count-waiting (suc r) w (x ∷ channels) (suc i) v e =
    ground (arith, count-waiting r w channels i v e)

pub when-add : (b : Bool) (k m n : ℕ) → k ≡ m + n → when b k ≡ when b m + when b n
when-add true k m n e = e
when-add false k m n e = refl
