-- ===== src/Batch/Scheduler.antt =====
-- internal/buildbatch/scheduler.go and buildkit_addresses.go: the pool of BuildKit workers of a
-- batch, whose addresses may cool down, and the choice of a worker for a build. consistent_hash.go
-- is the hash of Daemon.Hash.
pub mod Choice
use buildkit_service.Prelude.{
  ℕ, suc, ◌+◌, Bool, true, false, not, ◌&&◌, Option, none, some, List, [], ◌∷◌, Map, Text, eq_text,
  lookup, insert, text_eq, text_ltb, ltb, nat_eq, sort_by, length, get_elem?, if◌then◌else◌, Result,
  ok, err,
}
use buildkit_service.Daemon.Hash.{ConsistentHash, new_consistent_hash, get_slot_order}

-- Times are nanoseconds. No code makes a duration of an address negative: queryDurationStrict
-- refuses one.
pub record BuildkitAddr : Type 0 where
  pub original : Text
  pub addr : Text
  pub node_ip : Text
  pub cooldown : ℕ
  pub cooldown_until : ℕ

-- A slot and its address are shared by pointer: `sem` names the slot and its channel, whose
-- capacity is `capacity`.
pub record AddrSlot : Type 0 where
  pub addr : BuildkitAddr
  pub sem : ℕ
  pub capacity : ℕ

pub record AddrPoolSnapshot : Type 0 where
  pub slots : List AddrSlot
  pub hash : Option ConsistentHash

pub record AddrPool : Type 0 where
  pub concurrency : ℕ
  pub slots : List AddrSlot
  pub hash : Option ConsistentHash
  pub next_sem : ℕ

abbrev pub is_in_cooldown : ℕ → BuildkitAddr → Bool
is_in_cooldown now a = ltb now a.cooldown_until

unfoldable pub set_cooldown : ℕ → BuildkitAddr → BuildkitAddr
set_cooldown now a = record a { cooldown_until = now + a.cooldown }

-- setCooldown through the slot with a name, as the pool sees it: a slot that the pool has dropped
-- is not in it.
unfoldable pub cool_down : ℕ → ℕ → List AddrSlot → List AddrSlot
unfolding set_cooldown
cool_down now sem [] = []
cool_down now sem (s ∷ ss) =
    (if nat_eq s.sem sem then record s { addr = set_cooldown now s.addr } else s)
    ∷ cool_down now sem ss

unfoldable pub snapshot : AddrPool → AddrPoolSnapshot
snapshot p = record { slots = p.slots; hash = p.hash }

unfoldable pub slot_address_keys : List AddrSlot → List Text
slot_address_keys [] = []
slot_address_keys (s ∷ ss) = s.addr.addr ∷ slot_address_keys ss

unfoldable pub addresses : AddrPool → List Text
unfolding slot_address_keys
addresses p = slot_address_keys p.slots

unfoldable pub existing_slots : List AddrSlot → Map Text AddrSlot → Map Text AddrSlot
unfolding insert text_eq
existing_slots [] m = m
existing_slots (s ∷ ss) m = existing_slots ss (insert s.addr.addr s m)

abbrev pub slot_for : ℕ → BuildkitAddr → ℕ → Option AddrSlot → ℕ × AddrSlot
slot_for concurrency a next none =
    (suc next, record { addr = a; sem = next; capacity = concurrency })
slot_for concurrency a next (some slot) = (next, slot)

-- A nil address is skipped.
unfoldable pub new_slots :
    Map Text AddrSlot → ℕ → List (Option BuildkitAddr) → ℕ → ℕ × List AddrSlot
unfolding lookup text_eq
new_slots existing concurrency [] next = (next, [])
new_slots existing concurrency (none ∷ addrs) next = new_slots existing concurrency addrs next
new_slots existing concurrency (some a ∷ addrs) next =
    let (next', slot) = slot_for concurrency a next (lookup a.addr existing) in
    let (last, rest) = new_slots existing concurrency addrs next' in (last, slot ∷ rest)

abbrev pub slot_before : AddrSlot → AddrSlot → Bool
slot_before s t = text_ltb s.addr.addr t.addr.addr

abbrev pub ring_for : List AddrSlot → Option ConsistentHash
ring_for [] = none
ring_for (s ∷ ss) = some (new_consistent_hash (length (s ∷ ss)) 150)

unfoldable pub replace : List (Option BuildkitAddr) → AddrPool → AddrPool
unfolding new_slots existing_slots sort_by text_ltb
replace addrs p =
    let (next, made) = new_slots (existing_slots p.slots []) p.concurrency addrs p.next_sem in
    let sorted = sort_by slot_before made in
    record p { slots = sorted; hash = ring_for sorted; next_sem = next }

unfoldable pub new_addr_pool : List (Option BuildkitAddr) → ℕ → AddrPool
unfolding replace
new_addr_pool addrs concurrency =
    replace addrs (record { concurrency = concurrency; slots = []; hash = none; next_sem = 0 })

-- A tick of runBuildkitAddrRefresher, with what parseBuildkitAddrs gives.
unfoldable pub with_cooldown : ℕ → List BuildkitAddr → List (Option BuildkitAddr)
with_cooldown oom [] = []
with_cooldown oom (a ∷ addrs) = some (record a { cooldown = oom }) ∷ with_cooldown oom addrs

unfoldable pub refresh : ℕ → Result Text (List BuildkitAddr) → AddrPool → AddrPool
unfolding with_cooldown replace
refresh oom (err e) p = p
refresh oom (ok addrs) p = replace (with_cooldown oom addrs) p

-- An index that is out of range, which the order has none of, is skipped.
abbrev pub add_slot : Option AddrSlot → List AddrSlot → List AddrSlot
add_slot none rest = rest
add_slot (some s) rest = s ∷ rest

unfoldable pub slots_at : List AddrSlot → List ℕ → List AddrSlot
slots_at slots [] = []
slots_at slots (i ∷ is) = add_slot (get_elem? slots i) (slots_at slots is)

-- The slots in the order of a key; `none` is a walk along the ring that never ends.
abbrev pub in_order : List AddrSlot → Option (List ℕ) → Option (List AddrSlot)
in_order slots none = none
in_order slots (some order) = some (slots_at slots order)

abbrev pub order_by : List AddrSlot → Text → Option ConsistentHash → Option (List AddrSlot)
order_by slots key none = some []
order_by slots key (some ch) = in_order slots (get_slot_order ch (length ch.ring) key)

unfoldable pub ordered_slots : AddrPoolSnapshot → Text → Option (List AddrSlot)
unfolding slots_at get_slot_order
ordered_slots shot key = order_by shot.slots key shot.hash

-- A choice among the slots in order.
abbrev pub choose :
    (List AddrSlot → Option AddrSlot) → Option (List AddrSlot) → Option (Option AddrSlot)
choose f none = none
choose f (some slots) = some (f slots)

abbrev pub or_second : Option AddrSlot → Option AddrSlot → Option AddrSlot
or_second none second = second
or_second (some s) second = some s

-- pickAddrSlot on the slots in order: the first that does not cool down, else the first.
unfoldable pub first_ready : ℕ → List AddrSlot → Option AddrSlot → Option AddrSlot
first_ready now [] fallback = fallback
first_ready now (s ∷ ss) fallback =
    let rest = first_ready now ss (or_second fallback (some s)) in
    if not (is_in_cooldown now s.addr) then some s else rest

unfoldable pub pick_addr_slot : ℕ → AddrPoolSnapshot → Text → Option (Option AddrSlot)
unfolding ordered_slots first_ready
pick_addr_slot now shot key = choose (λ slots. first_ready now slots none) (ordered_slots shot key)

-- What a pass meets: the clock, and how many builds hold each semaphore.
pub record Moment : Type 0 where
  pub now : ℕ
  pub held : ℕ → ℕ

abbrev pub try_acquire_addr_slot : Moment → AddrSlot → Bool
try_acquire_addr_slot m s = ltb (m.held s.sem) s.capacity

-- One pass over the order.
unfoldable pub pass : Moment → Bool → List AddrSlot → Option AddrSlot
pass m require_ready [] = none
pass m require_ready (s ∷ ss) =
    let rest = pass m require_ready ss in
    if require_ready && is_in_cooldown m.now s.addr
    then rest
    else if not (try_acquire_addr_slot m s)
    then rest
    else some s

-- Both passes, at a moment each.
unfoldable pub two_passes : Moment → Moment → List AddrSlot → Option AddrSlot
unfolding pass
two_passes m n slots = or_second (pass m true slots) (pass n false slots)

unfoldable pub pick_available_addr_slot :
    Moment → Moment → AddrPoolSnapshot → Text → Option (Option AddrSlot)
unfolding ordered_slots two_passes
pick_available_addr_slot m n shot key = choose (two_passes m n) (ordered_slots shot key)

-- A round of waitForAvailableAddrSlot: whether the context has ended, the slots in the order of the
-- key, the moments of the passes, and whether the context ends during the pause.
pub record WaitRound : Type 0 where
  pub ended : Bool
  pub slots : List AddrSlot
  pub first : Moment
  pub second : Moment
  pub ends : Bool

pub data Waited : Type 0 where
  still_waiting : Waited
  gave_up : Waited
  got_slot : AddrSlot → Waited

abbrev pub after_passes : Bool → Waited → Option AddrSlot → Waited
after_passes ends rest none = if ends then gave_up else rest
after_passes ends rest (some s) = got_slot s

unfoldable pub wait_for_available_addr_slot : List WaitRound → Waited
unfolding two_passes
wait_for_available_addr_slot [] = still_waiting
wait_for_available_addr_slot (r ∷ rounds) =
    let rest = wait_for_available_addr_slot rounds in
    if r.ended then gave_up else after_passes r.ends rest (two_passes r.first r.second r.slots)

-- acquireGlobalSlotOrReleaseWorker: how many places of the worker are given back, and whether the
-- build may start; the select takes a place of the command or meets the end of the context.
abbrev pub acquire_global_slot_or_release_worker : Bool → ℕ × Bool
acquire_global_slot_or_release_worker true = (0, true)
acquire_global_slot_or_release_worker false = (1, false)
