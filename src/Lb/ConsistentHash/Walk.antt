-- ===== src/Lb/ConsistentHash/Walk.antt =====
-- ConsistentHash.cpp: the walk round the ring against the entries in clockwise order.
use aorta.Prelude.{
  ℕ, zero, suc, ◌+◌, ◌≤◌, ◌<◌, ◌≡◌, refl, ◌∙◌, Option, none, some, [], ◌∷◌, ◌++◌, length, get_elem?,
  get_elem?-some, take, drop, arith, ◌==◌, if◌then◌else◌,
}
use aorta.Lb.Backend.{BackendPool, is_healthy}
use aorta.Lb.ConsistentHash.Defs.{Ring, wrap, walk}

-- The backend of the first entry whose backend is healthy.
unfoldable pub first_healthy : BackendPool → Ring → Option ℕ
first_healthy pool [] = none
first_healthy pool ((key, index) ∷ ring) =
    if is_healthy pool index then some index else first_healthy pool ring

drop_get :
    (ring : Ring) (i : ℕ) {e : ℕ × ℕ}
    → get_elem? ring i ≡ some e
    → drop i ring ≡ e ∷ drop (suc i) ring
drop_get [] i h = cc
drop_get (x ∷ ring) zero h = ground arith
drop_get (x ∷ ring) (suc i) h = drop_get ring i h

drop_end : (ring : Ring) (i : ℕ) → length ring ≤ i → drop i ring ≡ []
drop_end [] zero h = refl
drop_end [] (suc i) h = refl
drop_end (x ∷ ring) zero h = absurd (omega arith)
drop_end (x ∷ ring) (suc i) h = drop_end ring i (omega arith)

get_elem?-take : (ring : Ring) (n i : ℕ) → i < n → get_elem? (take n ring) i ≡ get_elem? ring i
get_elem?-take ring zero i h = elim h [ ]
get_elem?-take [] (suc n) i h = refl
get_elem?-take (x ∷ ring) (suc n) zero h = refl
get_elem?-take (x ∷ ring) (suc n) (suc i) h = get_elem?-take ring n i (omega arith)

length-take-le : (ring : Ring) (n : ℕ) → length (take n ring) ≤ n
length-take-le ring zero = omega arith
length-take-le [] (suc n) = omega arith
length-take-le (x ∷ ring) (suc n) = omega (arith, length-take-le ring n)

module _ (ring : Ring) (pool : BackendPool) (start : ℕ) where
  walk_step :
      (fuel it : ℕ) {key index : ℕ}
      → get_elem? ring it ≡ some (key, index)
      → walk (suc fuel) ring pool start it ≡ (
          if is_healthy pool index
          then some index
          else if wrap ring (suc it) == start
          then none
          else walk fuel ring pool start (wrap ring (suc it)))
  unfolding walk
  walk_step fuel it e = rw (e, walk)

  first_healthy_step :
      (list : Ring) (it : ℕ) {key index : ℕ}
      → get_elem? list it ≡ some (key, index)
      → first_healthy pool (drop it list)
        ≡ (if is_healthy pool index then some index else first_healthy pool (drop (suc it) list))
  unfolding first_healthy
  first_healthy_step list it e = rw (drop_get list it e)

  none_left : (list : Ring) (it : ℕ) → length list ≤ it → first_healthy pool (drop it list) ≡ none
  unfolding first_healthy
  none_left list it h = rw (drop_end list it h)

  -- Below the start, after the walk has passed the end of the ring.
  walk_below :
      (fuel it : ℕ)
      → it < start
      → start < length ring
      → start ≤ fuel + it
      → walk fuel ring pool start it ≡ first_healthy pool (drop it (take start ring))
  walk_below zero it h s f = absurd (omega arith)
  walk_below (suc fuel) it h s f =
      let ((key, index), e) = get_elem?-some ring it (omega arith) in
      ground (
        arith,
        walk_step fuel it e,
        first_healthy_step (take start ring) it (get_elem?-take ring start it h ∙ e),
        none_left (take start ring) (suc it),
        length-take-le ring start,
        walk_below fuel (suc it),
      )

  first_healthy-append :
      (xs ys : Ring)
      → first_healthy pool xs ≡ none
      → first_healthy pool (xs ++ ys) ≡ first_healthy pool ys
  unfolding first_healthy
  first_healthy-append [] ys h = refl
  first_healthy-append ((key, index) ∷ xs) ys h = ground (arith, first_healthy-append xs ys)

  first_healthy_step_append :
      (list rest : Ring) (it : ℕ) {key index : ℕ}
      → get_elem? list it ≡ some (key, index)
      → first_healthy pool (drop it list ++ rest) ≡ (
          if is_healthy pool index
          then some index
          else first_healthy pool (drop (suc it) list ++ rest))
  unfolding first_healthy
  first_healthy_step_append list rest it e = rw (drop_get list it e)

  -- From the start on.
  walk_above :
      (fuel it : ℕ)
      → start ≤ it
      → it < length ring
      → length ring + start ≤ fuel + it
      → walk fuel ring pool start it ≡ first_healthy pool (drop it ring ++ take start ring)
  walk_above zero it h s f = absurd (omega arith)
  walk_above (suc fuel) it h s f =
      let ((key, index), e) = get_elem?-some ring it s in
      ground (
        arith,
        walk_step fuel it e,
        first_healthy_step_append ring (take start ring) it e,
        wrapped,
        none_left (take start ring) 0,
        length-take-le ring start,
        walk_above fuel (suc it),
        walk_below fuel 0,
      )
    where
      wrapped :
          length ring ≡ suc it
          → first_healthy pool (drop (suc it) ring ++ take start ring)
            ≡ first_healthy pool (take start ring)
      wrapped e = rw (drop_end ring (suc it) (omega arith)) refl

-- The walk from `start` meets every entry of the ring once, in the order from `start` round to it.
pub walk-first_healthy :
    (ring : Ring) (pool : BackendPool) (start : ℕ)
    → start < length ring
    → walk (length ring) ring pool start start
      ≡ first_healthy pool (drop start ring ++ take start ring)
walk-first_healthy ring pool start h =
    walk_above ring pool start (length ring) start (omega arith) h (omega arith)
