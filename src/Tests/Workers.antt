-- ===== src/Tests/Workers.antt =====
-- The ring of workers: internal/builddaemon/scheduler.go.
use buildkit_service.Prelude.{
  ℕ, zero, suc, ◌<◌, ◌≡◌, refl, Option, none, some, Text, get_elem?, false, List, [], ◌∷◌, text,
  length, lookup, eq_nat, Distinct, Covers, Within, insert, sort_by, arith,
}
use buildkit_service.Daemon.Hash.{
  ConsistentHash, fnv1a, replica_label, new_consistent_hash, node_at, get_slot_order, visit,
}
use buildkit_service.Daemon.Hash.Order.{get_slot_order_lem}
use buildkit_service.Batch.Scheduler.{
  AddrSlot, AddrPoolSnapshot, Moment, pick_available_addr_slot, ordered_slots,
  try_acquire_addr_slot,
}
use buildkit_service.Batch.Scheduler.Choice.{Chosen, pick_available_addr_slot_lem}
use buildkit_service.Daemon.Hash.Construction.{new_consistent_hash_lem}

-- Known values of the 32-bit FNV-1a hash.
fnv1a_empty : fnv1a [] ≡ 0x811c9dc5
unfolding fnv1a
fnv1a_empty = refl

fnv1a_foobar : fnv1a (text "foobar") ≡ 0xbf9cf968
unfolding fnv1a
fnv1a_foobar = refl

replica_label-text : replica_label 12 149 ≡ text "node-12-replica-149"
unfolding replica_label
replica_label-text = refl

abbrev pair : ConsistentHash
pair = new_consistent_hash 2 2

pair_order : get_slot_order pair 4 (text "source:00") ≡ some (1 ∷ 0 ∷ [])
unfolding get_slot_order new_consistent_hash replica_label insert visit
pair_order = refl

owner : (n : ℕ) → n < 2 → (p : ℕ) × (p < length pair.ring) × (node_at pair p ≡ n)
unfolding new_consistent_hash node_at fnv1a replica_label sort_by lookup insert
owner zero h = (3, omega arith, refl)
owner (suc zero) h = (0, omega arith, refl)
owner (suc (suc n)) h = absurd (omega arith)

get_slot_order_lem_example :
    (r : List ℕ) × (get_slot_order pair 4 (text "source:00") ≡ some r)
    × Distinct r
    × Covers 2 r
    × Within 2 r
    × (length r ≡ 2)
unfolding new_consistent_hash fnv1a replica_label
get_slot_order_lem_example =
    get_slot_order_lem pair 4 (text "source:00")
      (record { owns = owner; within = (new_consistent_hash_lem 2 2 (omega arith)).2 })
      (omega arith) (omega arith)

-- A ring whose one place belongs to the first of two workers.
abbrev collided : ConsistentHash
collided = record { ring = 7 ∷ []; node_map = (7, 0) ∷ []; num_nodes = 2 }

abbrev worker : ℕ → Text → AddrSlot
worker sem addr = record {
  addr = record { original = addr; addr = addr; node_ip = []; cooldown = 120; cooldown_until = 0 };
  sem = sem;
  capacity = 1;
}

-- Two workers; the first in the order of the key is full.
abbrev shot : AddrPoolSnapshot
shot = record {
  slots = worker 0 (text "tcp://a") ∷ worker 1 (text "tcp://b") ∷ [];
  hash = some pair;
}

abbrev busy : Moment
busy = record { now = 5; held = λ sem. sem }

other_worker :
    pick_available_addr_slot busy busy shot (text "source:00")
    ≡ some (some (worker 0 (text "tcp://a")))
unfolding pick_available_addr_slot get_slot_order new_consistent_hash replica_label insert visit
other_worker = refl

pick_available_addr_slot_lem_example :
    (ordered : List AddrSlot) × (r : Option AddrSlot) × (ordered_slots shot (text "source:00")
      ≡ some ordered)
    × (pick_available_addr_slot busy busy shot (text "source:00") ≡ some r)
    × Chosen busy busy ordered r
    × (r ≡ none
        → (i : ℕ) (s : AddrSlot) → get_elem? shot.slots i ≡ some s
        → try_acquire_addr_slot busy s ≡ false)
unfolding new_consistent_hash fnv1a replica_label
pick_available_addr_slot_lem_example =
    pick_available_addr_slot_lem busy busy shot (text "source:00") pair refl
      (record { owns = owner; within = (new_consistent_hash_lem 2 2 (omega arith)).2 })
      (omega arith) refl
