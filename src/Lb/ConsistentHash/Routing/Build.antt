-- ===== src/Lb/ConsistentHash/Routing/Build.antt =====
-- ConsistentHash.cpp: the ring that `build` makes.
use aorta.Prelude.{ℕ, zero, suc, ◌+◌, ◌≤◌, ◌<◌, ◌≡◌, [], ◌∷◌, Bytes, length, arith}
use aorta.Lb.Backend.{BackendPool}
use aorta.Lb.ConsistentHash.Defs.{
  Ring, emplace, add_virtual_nodes, add_backends, build, backend_key, virtual_nodes_per_backend,
}

-- The keys rise along the ring, from `lo` on.
abbrev pub Ascends : ℕ → Ring → Type 0
Ascends lo [] = Unit {0}
Ascends lo ((k, v) ∷ ring) = (lo ≤ k) × Ascends (suc k) ring

-- Every entry names one of the first `n` backends.
abbrev pub IndicesBelow : ℕ → Ring → Type 0
IndicesBelow n [] = Unit {0}
IndicesBelow n ((k, v) ∷ ring) = (v < n) × IndicesBelow n ring

emplace-Ascends :
    (k v lo : ℕ) (ring : Ring) → lo ≤ k → Ascends lo ring → Ascends lo (emplace k v ring)
unfolding emplace
emplace-Ascends k v lo [] h a = (h, tt)
emplace-Ascends k v lo ((j, w) ∷ ring) h a = ground (arith, emplace-Ascends k v (suc j) ring)

emplace-IndicesBelow :
    (k v n : ℕ) (ring : Ring) → v < n → IndicesBelow n ring → IndicesBelow n (emplace k v ring)
unfolding emplace
emplace-IndicesBelow k v n [] h b = (h, tt)
emplace-IndicesBelow k v n ((j, w) ∷ ring) h b = ground (arith, emplace-IndicesBelow k v n ring)

IndicesBelow-mono : (m n : ℕ) (ring : Ring) → m ≤ n → IndicesBelow m ring → IndicesBelow n ring
IndicesBelow-mono m n [] h b = tt
IndicesBelow-mono m n ((k, v) ∷ ring) h b = (omega arith, IndicesBelow-mono m n ring h b.1)

abbrev Sound : ℕ → Ring → Type 0
Sound n ring = Ascends 0 ring × IndicesBelow n ring

emplace-Sound : (k v n : ℕ) (ring : Ring) → v < n → Sound n ring → Sound n (emplace k v ring)
emplace-Sound k v n ring h (a, b) =
    (emplace-Ascends k v 0 ring (omega arith) a, emplace-IndicesBelow k v n ring h b)

add_virtual_nodes-Sound :
    (left node : ℕ) (key : Bytes) (index n : ℕ) (ring : Ring)
    → index < n
    → Sound n ring
    → Sound n (add_virtual_nodes left node key index ring)
unfolding add_virtual_nodes
add_virtual_nodes-Sound zero node key index n ring h s = s
add_virtual_nodes-Sound (suc left) node key index n ring h s =
    add_virtual_nodes-Sound left (node + 1) key index n _ h (emplace-Sound _ index n ring h s)

add_backends-Sound :
    (index : ℕ) (pool : BackendPool) (ring : Ring)
    → Sound index ring
    → Sound (index + length pool) (add_backends index pool ring)
unfolding add_backends
add_backends-Sound index [] ring (a, b) =
    (a, IndicesBelow-mono index (index + 0) ring (omega arith) b)
add_backends-Sound index (backend ∷ pool) ring (a, b) =
    let e : index + length (backend ∷ pool) ≡ index + 1 + length pool = omega arith in
    rw e (
      add_backends-Sound (index + 1) pool _ (
        add_virtual_nodes-Sound virtual_nodes_per_backend 0 (backend_key backend) index (index + 1)
          ring (omega arith) (a, IndicesBelow-mono index (index + 1) ring (omega arith) b)))

build-Sound : (pool : BackendPool) → Sound (length pool) (build pool)
unfolding build
build-Sound pool =
    let (a, b) = add_backends-Sound 0 pool [] (tt, tt) in
    (a, IndicesBelow-mono (0 + length pool) (length pool) _ (omega arith) b)

-- The keys of the ring that `build` makes rise strictly, as those of a `std::map` do.
pub build-Ascends : (pool : BackendPool) → Ascends 0 (build pool)
build-Ascends pool = (build-Sound pool).0

-- Every entry of that ring names a backend of the pool.
pub build-IndicesBelow : (pool : BackendPool) → IndicesBelow (length pool) (build pool)
build-IndicesBelow pool = (build-Sound pool).1
