-- ===== src/Daemon/Pool/Choice.antt =====
-- internal/builddaemon/scheduler.go: which slot acquireAddrSlot gives.
use buildkit_service.Prelude.{
  ℕ, zero, suc, ◌≡◌, refl, subst, false, Option, none, some, List, [], ◌∷◌, Text, member, All,
  get_elem?, inl, inr, Bool-cases, Option-cases, arith,
}
use buildkit_service.Daemon.Hash.{ConsistentHash, get_slot_order}
use buildkit_service.Daemon.Pool.{
  AddrSlot, AddrPool, Acquired, gets_slot, acquire_addr_slot, wait_for, chosen,
  filter_excluded_addr_slots, first_available, ordered_addr_slots, order_by, in_order, snapshot,
  slots_at, try_acquire_addr_slot,
}

get_elem?-All :
    (P : AddrSlot → Type 0) (slots : List AddrSlot) (i : ℕ) (a : AddrSlot)
    → All P slots
    → get_elem? slots i ≡ some a
    → P a
get_elem?-All P [] i a h e = cc
get_elem?-All P (s ∷ ss) zero a h e = subst P (some_slot e) h.0
  where
    some_slot : {b c : AddrSlot} → some b ≡ some c → b ≡ c
    some_slot p = cc
get_elem?-All P (s ∷ ss) (suc i) a h e = get_elem?-All P ss i a h.1 e

-- A slot that may be tried, with what is known of every slot.
abbrev pub Free : (AddrSlot → Type 0) → List Text → AddrSlot → Type 0
Free Q x s = (member s.addr.addr x ≡ false) × Q s

filter-Free :
    (Q : AddrSlot → Type 0) (slots : List AddrSlot) (x : List Text)
    → All Q slots
    → All (Free Q x) (filter_excluded_addr_slots slots x)
unfolding filter_excluded_addr_slots
filter-Free Q [] x h = tt
filter-Free Q (s ∷ ss) x h = elim (Bool-cases (member s.addr.addr x)) [
  | inl e ↦ rw e (filter-Free Q ss x h.1)
  | inr e ↦ rw e ((e, h.0), filter-Free Q ss x h.1)
]

slots_at-All :
    (Q : AddrSlot → Type 0) (slots : List AddrSlot) (order : List ℕ)
    → All Q slots
    → All Q (slots_at slots order)
unfolding slots_at
slots_at-All Q slots [] h = tt
slots_at-All Q slots (i ∷ is) h = elim (Option-cases (get_elem? slots i)) [
  | inl e ↦ rw e (slots_at-All Q slots is h)
  | inr (a, e) ↦ rw e (get_elem?-All Q slots i a h e, slots_at-All Q slots is h)
]

first_available-All :
    (P : AddrSlot → Type 0) (held : ℕ → ℕ) (slots : List AddrSlot) (a : AddrSlot)
    → All P slots
    → first_available held slots ≡ some a
    → P a
unfolding first_available
first_available-All P held [] a h e = cc
first_available-All P held (s ∷ ss) a h e = elim (Bool-cases (try_acquire_addr_slot held s)) [
  | inl t ↦ subst P (ground (arith, t, e)) h.0
  | inr t ↦ first_available-All P held ss a h.1 (ground (arith, t, e))
]

wait_for-All :
    (P : AddrSlot → Type 0) (held : ℕ → ℕ) (waited : Option ℕ) (left : List AddrSlot) (a : AddrSlot)
    → All P left
    → wait_for (first_available held left) left waited ≡ gets_slot a
    → P a
wait_for-All P held waited left a h e = elim (Option-cases (first_available held left)) [
  | inr (b, f) ↦ subst P (gets_eq (rw f at e)) (first_available-All P held left b h f)
  | inl f ↦ waited-All left waited (rw f at e) h
]
  where
    gets_eq : {b c : AddrSlot} → gets_slot b ≡ gets_slot c → b ≡ c
    gets_eq p = cc

    chosen-All :
        (l : List AddrSlot) (i : ℕ) (o : Option AddrSlot)
        → get_elem? l i ≡ o
        → chosen l (some i) ≡ gets_slot a
        → All P l
        → P a
    chosen-All l i none f e h = cc (rw f at e)
    chosen-All l i (some b) f e h = (subst P (gets_eq (rw f at e)) (get_elem?-All P l i b h f))

    waited-All :
        (l : List AddrSlot) (w : Option ℕ) → wait_for none l w ≡ gets_slot a → All P l → P a
    waited-All [] w e h = cc
    waited-All (s ∷ ss) none e h = cc
    waited-All (s ∷ ss) (some i) e h = chosen-All (s ∷ ss) i (get_elem? (s ∷ ss) i) refl e h

ordered-All :
    (Q : AddrSlot → Type 0) (p : AddrPool) (key : Text) (slots : List AddrSlot)
    → All Q p.slots
    → ordered_addr_slots (snapshot p) key ≡ some slots
    → All Q slots
unfolding ordered_addr_slots snapshot
ordered-All Q p key slots h e = by_hash p.hash e
  where
    some_slots : {a b : List AddrSlot} → some a ≡ some b → a ≡ b
    some_slots q = cc

    by_order : (o : Option (List ℕ)) → in_order p.slots o ≡ some slots → All Q slots
    by_order none f = cc
    by_order (some order) f = subst (All Q) (some_slots f) (slots_at-All Q p.slots order h)

    by_hash : (c : Option ConsistentHash) → order_by p.slots key c ≡ some slots → All Q slots
    by_hash none f = subst (All Q) (some_slots f) tt
    by_hash (some ch) f = by_order (get_slot_order ch _ key) f

pub acquire_addr_slot-Free :
    (Q : AddrSlot → Type 0) (held : ℕ → ℕ) (waited : Option ℕ) (key : Text) (x : List Text)
    (p : AddrPool) (a : AddrSlot)
    → All Q p.slots
    → acquire_addr_slot held waited key x p ≡ some (gets_slot a)
    → Free Q x a
unfolding acquire_addr_slot
acquire_addr_slot-Free Q held waited key x p a h e =
    elim (Option-cases (ordered_addr_slots (snapshot p) key)) [
      | inl n ↦ cc (rw n at e)
      | inr (slots, n) ↦
          wait_for-All (Free Q x) held waited (filter_excluded_addr_slots slots x) a
            (filter-Free Q slots x (ordered-All Q p key slots h n)) (some_acquired (rw n at e))
    ]
  where
    some_acquired : {a b : Acquired} → some a ≡ some b → a ≡ b
    some_acquired q = cc
