-- ===== src/Lb/ConsistentHash/Defs.antt =====
-- ConsistentHash.cpp: the ring, its construction and the search for a backend.
use Prim.Native.Nat.{bit_xor}
use aorta.Prelude.{
  ℕ, zero, suc, ◌+◌, ◌*◌, ◌%◌, ◌||◌, Option, none, some, List, [], ◌∷◌, ◌++◌, Bytes, codes, length,
  get_elem?, null, ltb, ◌==◌, if◌then◌else◌, to_string,
}
use aorta.Lb.Backend.{Backend, BackendPool, is_healthy}

abbrev pub virtual_nodes_per_backend : ℕ
virtual_nodes_per_backend = 128

abbrev fnv_offset : ℕ
fnv_offset = 14695981039346656037

abbrev fnv_prime : ℕ
fnv_prime = 1099511628211

-- The loop of `hash`: 64-bit FNV-1a, with the multiplication modulo 2^64.
unfoldable pub hash_from : ℕ → Bytes → ℕ
hash_from value [] = value
hash_from value (byte ∷ key) =
    hash_from (bit_xor value byte * fnv_prime % 0x1_0000_0000_0000_0000) key

unfoldable pub hash : Bytes → ℕ
unfolding hash_from
hash key = hash_from fnv_offset key

unfoldable pub backend_key : Backend → Bytes
backend_key backend = backend.host ++ codes ":" ++ to_string backend.port

-- `std::map<std::uint64_t, std::size_t>`: the entries in the order of their keys.
abbrev pub Ring : Type 0
Ring = List (ℕ × ℕ)

-- `emplace`: a key that is there keeps its value.
unfoldable pub emplace : ℕ → ℕ → Ring → Ring
emplace k v [] = (k, v) ∷ []
emplace k v ((j, w) ∷ ring) =
    if ltb k j
    then (k, v) ∷ (j, w) ∷ ring
    else if k == j
    then (j, w) ∷ ring
    else (j, w) ∷ emplace k v ring

-- The inner loop of `build`, with `left` rounds to come from number `node` on.
unfoldable pub add_virtual_nodes : ℕ → ℕ → Bytes → ℕ → Ring → Ring
unfolding emplace hash
add_virtual_nodes zero node key index ring = ring
add_virtual_nodes (suc left) node key index ring =
    add_virtual_nodes left (node + 1) key index
      (emplace (hash (key ++ codes "#" ++ to_string node)) index ring)

-- The outer loop of `build`, over the backends from `index` on.
unfoldable pub add_backends : ℕ → BackendPool → Ring → Ring
unfolding add_virtual_nodes backend_key
add_backends index [] ring = ring
add_backends index (backend ∷ pool) ring =
    add_backends (index + 1) pool
      (add_virtual_nodes virtual_nodes_per_backend 0 (backend_key backend) index ring)

unfoldable pub build : BackendPool → Ring
unfolding add_backends
build pool = add_backends 0 pool []

-- `lower_bound`, as a position in the ring: that of the first key that is not below `k`, or the end.
unfoldable pub lower_bound : ℕ → Ring → ℕ
lower_bound k [] = 0
lower_bound k ((j, w) ∷ ring) = if ltb j k then suc (lower_bound k ring) else 0

-- `if(iterator == ring.end()) iterator = ring.begin();`
abbrev pub wrap : Ring → ℕ → ℕ
wrap ring it = if it == length ring then 0 else it

-- `do … while(iterator != start)`, on fuel: one round for each entry of the ring.
unfoldable pub walk : ℕ → Ring → BackendPool → ℕ → ℕ → Option ℕ
walk zero ring pool start it = none
walk (suc fuel) ring pool start it = elim (get_elem? ring it) [
  | none ↦ none
  | some (key, index) ↦
      let rest = walk fuel ring pool start (wrap ring (suc it)) in
      if is_healthy pool index
      then some index
      else if wrap ring (suc it) == start
      then none
      else rest
]

unfoldable pub get_backend : Ring → Bytes → BackendPool → Option ℕ
unfolding walk
get_backend ring client_key pool =
    if null ring || length pool == 0
    then none
    else let start = wrap ring (lower_bound (hash client_key) ring) in
      walk (length ring) ring pool start start
