-- ===== src/Daemon/Pool.antt =====
-- internal/builddaemon/scheduler.go: addrPool, the slots of the BuildKit workers, and the choice
-- of a slot for a build.
pub mod Replace
pub mod Choice
use buildkit_service.Prelude.{
  ℕ, suc, ◌+◌, ◌<◌, Bool, true, false, not, ◌&&◌, ◌||◌, Option, none, some, List, [], ◌∷◌, Map,
  Text, eq_text, lookup, insert, text_eq, text_ltb, ltb, sort_by, length, get_elem?, keep, member,
  if◌then◌else◌,
}
use buildkit_service.Daemon.Hash.{ConsistentHash, new_consistent_hash, get_slot_order}

pub record BuildkitAddr : Type 0 where
  pub original : Text
  pub addr : Text
  pub node_ip : Text

-- A semaphore is a channel: `sem` names it, `capacity` is its capacity.
pub record AddrSlot : Type 0 where
  pub addr : BuildkitAddr
  pub sem : ℕ
  pub capacity : ℕ

-- replace, the only writer of the slots, never stores a nil slot or address. `next_sem` is the
-- name of the next channel that is made.
pub record AddrPool : Type 0 where
  pub concurrency : ℕ
  pub slots : List AddrSlot
  pub hash : Option ConsistentHash
  pub next_sem : ℕ

pub record AddrPoolSnapshot : Type 0 where
  pub slots : List AddrSlot
  pub hash : Option ConsistentHash

unfoldable pub snapshot : AddrPool → AddrPoolSnapshot
snapshot p = record { slots = p.slots; hash = p.hash }

unfoldable pub slot_address_keys : List AddrSlot → List Text
slot_address_keys [] = []
slot_address_keys (s ∷ ss) = s.addr.addr ∷ slot_address_keys ss

unfoldable pub addresses : AddrPool → List Text
addresses p = slot_address_keys p.slots

-- The map `existing`.
unfoldable pub existing_slots : List AddrSlot → Map Text AddrSlot → Map Text AddrSlot
existing_slots [] m = m
existing_slots (s ∷ ss) m = existing_slots ss (insert s.addr.addr s m)

-- The body of the loop over the addresses: the next name, and the slot of the address.
unfoldable pub slot_for : ℕ → BuildkitAddr → ℕ → Option AddrSlot → ℕ × AddrSlot
slot_for concurrency a next none =
    (suc next, record { addr = a; sem = next; capacity = concurrency })
slot_for concurrency a next (some slot) = (next, slot)

-- A nil address is skipped.
unfoldable pub new_slots :
    Map Text AddrSlot → ℕ → List (Option BuildkitAddr) → ℕ → ℕ × List AddrSlot
unfolding slot_for lookup
new_slots existing concurrency [] next = (next, [])
new_slots existing concurrency (none ∷ addrs) next = new_slots existing concurrency addrs next
new_slots existing concurrency (some a ∷ addrs) next =
    let (next', slot) = slot_for concurrency a next (lookup a.addr existing) in
    let (last, rest) = new_slots existing concurrency addrs next' in (last, slot ∷ rest)

abbrev pub before : AddrSlot → AddrSlot → Bool
before s t = text_ltb s.addr.addr t.addr.addr

abbrev pub ring_for : List AddrSlot → Option ConsistentHash
ring_for [] = none
ring_for (s ∷ ss) = some (new_consistent_hash (length (s ∷ ss)) 150)

unfoldable pub replace : List (Option BuildkitAddr) → AddrPool → AddrPool
unfolding new_slots existing_slots sort_by
replace addrs p =
    let (next, made) = new_slots (existing_slots p.slots []) p.concurrency addrs p.next_sem in
    let sorted = sort_by before made in
    record p { slots = sorted; hash = ring_for sorted; next_sem = next }

unfoldable pub new_addr_pool : List (Option BuildkitAddr) → ℕ → AddrPool
unfolding replace
new_addr_pool addrs concurrency =
    replace addrs (record { concurrency = concurrency; slots = []; hash = none; next_sem = 0 })

-- The slots at the indices that are in range.
abbrev add_slot : Option AddrSlot → List AddrSlot → List AddrSlot
add_slot none rest = rest
add_slot (some s) rest = s ∷ rest

unfoldable pub slots_at : List AddrSlot → List ℕ → List AddrSlot
slots_at slots [] = []
slots_at slots (i ∷ is) = add_slot (get_elem? slots i) (slots_at slots is)

-- getSlotOrder on its fuel, the length of the ring; `none` is a walk that never ends.
abbrev pub in_order : List AddrSlot → Option (List ℕ) → Option (List AddrSlot)
in_order slots none = none
in_order slots (some order) = some (slots_at slots order)

abbrev order_by : List AddrSlot → Text → Option ConsistentHash → Option (List AddrSlot)
order_by slots key none = some []
order_by slots key (some ch) = in_order slots (get_slot_order ch (length ch.ring) key)

unfoldable pub ordered_addr_slots : AddrPoolSnapshot → Text → Option (List AddrSlot)
unfolding slots_at get_slot_order
ordered_addr_slots shot key = order_by shot.slots key shot.hash

-- With nothing excluded the source returns its argument, which the filter does as well.
unfoldable pub filter_excluded_addr_slots : List AddrSlot → List Text → List AddrSlot
unfolding member
filter_excluded_addr_slots [] excluded = []
filter_excluded_addr_slots (s ∷ ss) excluded =
    let filtered = filter_excluded_addr_slots ss excluded in
    if member s.addr.addr excluded then filtered else s ∷ filtered

-- `held` is how many builds hold each semaphore when the send is tried.
unfoldable pub try_acquire_addr_slot : (ℕ → ℕ) → AddrSlot → Bool
try_acquire_addr_slot held s = ltb (held s.sem) s.capacity

unfoldable pub first_available : (ℕ → ℕ) → List AddrSlot → Option AddrSlot
unfolding try_acquire_addr_slot
first_available held [] = none
first_available held (s ∷ ss) =
    let later = first_available held ss in if try_acquire_addr_slot held s then some s else later

-- What acquireAddrSlot returns.
pub data Acquired : Type 0 where
  gets_slot : AddrSlot → Acquired
  interrupted : Acquired
  no_addresses : Acquired

-- The select: `none` is the end of the context, an index the slot whose send went through.
abbrev pub chosen_slot : Option AddrSlot → Acquired
chosen_slot none = interrupted
chosen_slot (some s) = gets_slot s

abbrev pub chosen : List AddrSlot → Option ℕ → Acquired
chosen slots none = interrupted
chosen slots (some i) = chosen_slot (get_elem? slots i)

abbrev pub wait_for : Option AddrSlot → List AddrSlot → Option ℕ → Acquired
wait_for (some s) slots waited = gets_slot s
wait_for none [] waited = no_addresses
wait_for none (s ∷ ss) waited = chosen (s ∷ ss) waited

-- acquireAddrSlot: a free slot in the order of the key, else the answer of the select. An index
-- out of range, which no select gives, reads as an interruption.
abbrev pub acquire_from : (ℕ → ℕ) → Option ℕ → List Text → List AddrSlot → Acquired
acquire_from held waited excluded slots =
    let left = filter_excluded_addr_slots slots excluded in
    wait_for (first_available held left) left waited

abbrev pub acquire_among : (ℕ → ℕ) → Option ℕ → List Text → Option (List AddrSlot) → Option Acquired
acquire_among held waited excluded none = none
acquire_among held waited excluded (some slots) = some (acquire_from held waited excluded slots)

unfoldable pub acquire_addr_slot :
    (ℕ → ℕ) → Option ℕ → Text → List Text → AddrPool → Option Acquired
unfolding ordered_addr_slots filter_excluded_addr_slots first_available snapshot
acquire_addr_slot held waited key excluded p =
    acquire_among held waited excluded (ordered_addr_slots (snapshot p) key)

unfoldable pub same_string_slice : List Text → List Text → Bool
unfolding text_eq
same_string_slice [] [] = true
same_string_slice [] (y ∷ ys) = false
same_string_slice (x ∷ xs) [] = false
same_string_slice (x ∷ xs) (y ∷ ys) = text_eq x y && same_string_slice xs ys
