-- ===== src/Daemon/Hash/Construction.antt =====
-- The ring that newConsistentHash builds.
use buildkit_service.Prelude.{
  ℕ, zero, suc, ◌+◌, ◌*◌, ◌≤◌, ◌<◌, ◌≡◌, refl, ◌∙◌, true, false, some, [], ◌∷◌, Map, lookup, insert,
  eq_nat, lookup-insert, length, length-append, length-sort_by, IsSorted, sort_by-IsSorted, ltb,
  Option-cases, inl, inr, arith,
}
use buildkit_service.Daemon.Hash.{
  ConsistentHash, add_replicas, add_nodes, add_replica, new_consistent_hash, node_at, or_zero,
  fnv1a, replica_label,
}

-- The map names workers below `n` only.
abbrev Names : ℕ → Map ℕ ℕ → Type 0
Names n m = (h v : ℕ) → lookup h m ≡ some v → v < n

insert-Names : (n k i : ℕ) (m : Map ℕ ℕ) → i < n → Names n m → Names n (insert k i m)
insert-Names n k i m h names j v e = ground (arith, lookup-insert k j i m, names j v)

add_replicas-Names :
    (n left r i : ℕ) (ch : ConsistentHash)
    → i < n
    → Names n ch.node_map
    → Names n (add_replicas left r i ch).node_map
unfolding add_replicas
add_replicas-Names n zero r i ch h names = names
add_replicas-Names n (suc left) r i ch h names =
    add_replicas-Names n left (r + 1) i (add_replica i r ch) h
      (insert-Names n (fnv1a (replica_label i r)) i ch.node_map h names)

add_nodes-Names :
    (n left i replicas : ℕ) (ch : ConsistentHash)
    → i + left ≤ n
    → Names n ch.node_map
    → Names n (add_nodes left i replicas ch).node_map
unfolding add_nodes
add_nodes-Names n zero i replicas ch h names = names
add_nodes-Names n (suc left) i replicas ch h names =
    add_nodes-Names n left (i + 1) replicas (add_replicas replicas 0 i ch) (omega arith)
      (add_replicas-Names n replicas 0 i ch (omega arith) names)

ring-add_replicas :
    (left r i : ℕ) (ch : ConsistentHash)
    → length (add_replicas left r i ch).ring ≡ length ch.ring + left
unfolding add_replicas
ring-add_replicas zero r i ch = omega arith
ring-add_replicas (suc left) r i ch = omega (
  arith,
  ring-add_replicas left (r + 1) i (add_replica i r ch),
  length-append ch.ring (fnv1a (replica_label i r) ∷ []),
)

ring-add_nodes :
    (left i replicas : ℕ) (ch : ConsistentHash)
    → length (add_nodes left i replicas ch).ring ≡ length ch.ring + left * replicas
unfolding add_nodes
ring-add_nodes zero i replicas ch = omega arith
ring-add_nodes (suc left) i replicas ch = grind (
  arith,
  ring-add_nodes left (i + 1) replicas (add_replicas replicas 0 i ch),
  ring-add_replicas replicas 0 i ch,
)

num_nodes-add_replicas :
    (left r i : ℕ) (ch : ConsistentHash) → (add_replicas left r i ch).num_nodes ≡ ch.num_nodes
unfolding add_replicas
num_nodes-add_replicas zero r i ch = refl
num_nodes-add_replicas (suc left) r i ch =
    num_nodes-add_replicas left (r + 1) i (add_replica i r ch)

num_nodes-add_nodes :
    (left i replicas : ℕ) (ch : ConsistentHash)
    → (add_nodes left i replicas ch).num_nodes ≡ ch.num_nodes
unfolding add_nodes
num_nodes-add_nodes zero i replicas ch = refl
num_nodes-add_nodes (suc left) i replicas ch =
    num_nodes-add_nodes left (i + 1) replicas (add_replicas replicas 0 i ch)
    ∙ num_nodes-add_replicas replicas 0 i ch

or_zero-lt : (n : ℕ) (m : Map ℕ ℕ) (h : ℕ) → 0 < n → Names n m → or_zero (lookup h m) < n
or_zero-lt n m h pos names = elim (Option-cases (lookup h m)) [
  | inl e ↦ rw e pos
  | inr (v, e) ↦ rw e (names h v e)
]

ltb_asymm : (x y : ℕ) → ltb x y ≡ true → ltb y x ≡ false
ltb_asymm x y h = ground arith

ltb_trans : (x y z : ℕ) → ltb y x ≡ false → ltb z y ≡ false → ltb z x ≡ false
ltb_trans x y z h k = ground arith

-- For at least one worker, the ring of newConsistentHash is sorted and has a place for each replica
-- of each worker, and whatever the index, the place there belongs to one of the workers.
pub new_consistent_hash_lem :
    (n replicas : ℕ)
    → 0 < n
    → let ch = new_consistent_hash n replicas in
      IsSorted ltb ch.ring
      × (length ch.ring ≡ n * replicas)
      × ((idx : ℕ) → node_at ch idx < ch.num_nodes)
unfolding new_consistent_hash node_at lookup
new_consistent_hash_lem n replicas h =
    let empty : ConsistentHash = record { ring = []; node_map = []; num_nodes = n } in
    let ch = add_nodes n 0 replicas empty in
    (
      sort_by-IsSorted ltb ltb_asymm ltb_trans ch.ring,
      length-sort_by ltb ch.ring ∙ ring-add_nodes n 0 replicas empty ∙ (omega arith),
      λ idx. rw (num_nodes-add_nodes n 0 replicas empty) (
          or_zero-lt n ch.node_map _ h
            (add_nodes-Names n n 0 replicas empty (omega arith) (λ k v e. cc))),
    )
