-- ===== src/Daemon/Hash.antt =====
-- internal/builddaemon/scheduler.go: the consistent hash that orders the workers for a key. The
-- copy in internal/buildbatch/consistent_hash.go is the same.
pub mod Order
pub mod Construction
use Prim.Native.Nat.{bit_xor}
use buildkit_service.Prelude.{
  ℕ, zero, suc, ◌+◌, ◌*◌, ◌/◌, ◌%◌, Bool, true, false, Option, none, some, List, [], ◌∷◌, ◌++◌, Map,
  Text, text, utf8_all, lookup, insert, eq_nat, sort_by, length, get_or, contains, ltb, leb, nat_eq,
  if◌then◌else◌,
}

abbrev pub word : ℕ
word = 4294967296

-- The loop of fnv1a over the bytes; uint32 wraps around.
unfoldable pub fnv1a_from : ℕ → List ℕ → ℕ
fnv1a_from h [] = h
fnv1a_from h (b ∷ bs) = fnv1a_from (bit_xor h b * 16777619 % word) bs

unfoldable pub fnv1a : Text → ℕ
unfolding fnv1a_from utf8_all
fnv1a s = fnv1a_from 2166136261 (utf8_all s)

-- The verb %d at a natural number; the fuel is above the number of digits.
decimal_from : ℕ → ℕ → Text → Text
decimal_from zero n acc = acc
decimal_from (suc f) n acc =
    let digit : ℕ = 48 + n % 10 in
    let rest = decimal_from f (n / 10) (digit ∷ acc) in if ltb n 10 then digit ∷ acc else rest

unfoldable pub decimal : ℕ → Text
unfolding decimal_from
decimal n = decimal_from (suc n) n []

unfoldable pub replica_label : ℕ → ℕ → Text
unfolding decimal
replica_label i r = text "node-" ++ (decimal i ++ (text "-replica-" ++ decimal r))

pub record ConsistentHash : Type 0 where
  pub ring : List ℕ
  pub node_map : Map ℕ ℕ
  pub num_nodes : ℕ

-- The body of the inner loop.
abbrev pub add_replica : ℕ → ℕ → ConsistentHash → ConsistentHash
add_replica i r ch =
    let h = fnv1a (replica_label i r) in
    record ch { ring = ch.ring ++ h ∷ []; node_map = insert h i ch.node_map }

-- The loops count up: the first number is the rounds left, the second the loop variable.
unfoldable pub add_replicas : ℕ → ℕ → ℕ → ConsistentHash → ConsistentHash
add_replicas zero r i ch = ch
add_replicas (suc left) r i ch = add_replicas left (r + 1) i (add_replica i r ch)

unfoldable pub add_nodes : ℕ → ℕ → ℕ → ConsistentHash → ConsistentHash
unfolding add_replicas
add_nodes zero i replicas ch = ch
add_nodes (suc left) i replicas ch = add_nodes left (i + 1) replicas (add_replicas replicas 0 i ch)

unfoldable pub new_consistent_hash : ℕ → ℕ → ConsistentHash
unfolding add_nodes sort_by
new_consistent_hash num_nodes replicas =
    let ch =
      add_nodes num_nodes 0 replicas (record { ring = []; node_map = []; num_nodes = num_nodes }) in
    record ch { ring = sort_by ltb ch.ring }

-- sort.Search for the first entry of the ring that is at least `h`, on a sorted ring.
unfoldable pub search_ring : List ℕ → ℕ → ℕ
search_ring [] h = 0
search_ring (x ∷ xs) h = let rest = suc (search_ring xs h) in if leb h x then 0 else rest

-- A key that a Go map lacks reads as 0.
abbrev pub or_zero : Option ℕ → ℕ
or_zero none = 0
or_zero (some n) = n

-- ch.nodeMap[ch.ring[idx%len(ch.ring)]]
unfoldable pub node_at : ConsistentHash → ℕ → ℕ
unfolding lookup
node_at ch idx = or_zero (lookup (get_or ch.ring (idx % length ch.ring) 0) ch.node_map)

-- `seen` holds the nodes of `order`, so the test is made on `order`.
unfoldable pub visit : List ℕ → ℕ → List ℕ
unfolding contains
visit order n = if contains order n then order else order ++ n ∷ []

-- The loop of getSlotOrder, on fuel; `none` when it runs out.
unfoldable pub slot_order_from : ConsistentHash → ℕ → ℕ → List ℕ → Option (List ℕ)
unfolding node_at visit
slot_order_from ch zero idx order = if ltb (length order) ch.num_nodes then none else some order
slot_order_from ch (suc fuel) idx order =
    let rest = slot_order_from ch fuel (idx + 1) (visit order (node_at ch idx)) in
    if ltb (length order) ch.num_nodes then rest else some order

abbrev pub start_index : ConsistentHash → Text → ℕ
start_index ch key =
    let idx = search_ring ch.ring (fnv1a key) in if leb (length ch.ring) idx then 0 else idx

-- An empty ring gives nil.
unfoldable pub get_slot_order : ConsistentHash → ℕ → Text → Option (List ℕ)
unfolding slot_order_from search_ring fnv1a
get_slot_order ch fuel key =
    if nat_eq (length ch.ring) 0 then some [] else slot_order_from ch fuel (start_index ch key) []
