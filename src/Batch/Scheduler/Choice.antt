-- ===== src/Batch/Scheduler/Choice.antt =====
-- internal/buildbatch/scheduler.go: which worker pickAvailableAddrSlot gives to a build.
use buildkit_service.Prelude.{
  ℕ, zero, suc, ◌<◌, ◌≡◌, refl, ap, ◌∙◌, subst, Bool, true, false, not, ◌&&◌, ◌⊎◌, Option, none,
  some, List, [], ◌∷◌, ◌++◌, Text, All, contains, nat_eq, nat_eq_iff, length, get_elem?, inl, inr,
  Bool-cases, arith,
}
use buildkit_service.Daemon.Hash.{ConsistentHash}
use buildkit_service.Daemon.Hash.Order.{IsCovering, get_slot_order_lem}
use buildkit_service.Batch.Scheduler.{
  AddrSlot, AddrPoolSnapshot, Moment, is_in_cooldown, try_acquire_addr_slot, pass, or_second,
  two_passes, slots_at, add_slot, ordered_slots, order_by, in_order, choose,
  pick_available_addr_slot,
}

-- A pass takes a slot that has a place, and that is ready where it must be.
abbrev pub accepts : Moment → Bool → AddrSlot → Bool
accepts m require_ready s =
    not (require_ready && is_in_cooldown m.now s.addr) && try_acquire_addr_slot m s

abbrev pub Refused : Moment → Bool → AddrSlot → Type 0
Refused m require_ready s = accepts m require_ready s ≡ false

-- The first slot of a list that passes a test.
abbrev pub First : (AddrSlot → Bool) → List AddrSlot → AddrSlot → Type 0
First p slots s =
    (front : List AddrSlot) × (back : List AddrSlot) × (slots ≡ front ++ s ∷ back)
    × All (λ t. p t ≡ false) front
    × (p s ≡ true)

abbrev pub Found : (AddrSlot → Bool) → List AddrSlot → Option AddrSlot → Type 0
Found p slots none = All (λ t. p t ≡ false) slots
Found p slots (some s) = First p slots s

Found-later :
    (p : AddrSlot → Bool) (t : AddrSlot) (slots : List AddrSlot) (r : Option AddrSlot)
    → p t ≡ false
    → Found p slots r
    → Found p (t ∷ slots) r
Found-later p t slots none h f = (h, f)
Found-later p t slots (some s) h (front, back, e, before, yes') =
    (t ∷ front, back, ap (λ l. t ∷ l) e, (h, before), yes')

pass-Found :
    (m : Moment) (require_ready : Bool) (slots : List AddrSlot)
    → Found (accepts m require_ready) slots (pass m require_ready slots)
unfolding pass
pass-Found m r [] = tt
pass-Found m r (s ∷ ss) = elim (Bool-cases (r && is_in_cooldown m.now s.addr)) [
  | inl cool ↦
      rw cool (Found-later (accepts m r) s ss (pass m r ss) (rw cool refl) (pass-Found m r ss))
  | inr ready ↦ elim (Bool-cases (try_acquire_addr_slot m s)) [
    | inl free ↦ rw (ready, free) ([], ss, refl, tt, rw (ready, free) refl)
    | inr full ↦
        rw (ready, full)
          (Found-later (accepts m r) s ss (pass m r ss) (rw (ready, full) refl) (pass-Found m r ss))
  ]
]

-- The answer of the two passes: the first slot with a place that does not cool down; if there is
-- none, the first with a place; and no slot if all are full.
abbrev pub Chosen : Moment → Moment → List AddrSlot → Option AddrSlot → Type 0
Chosen m n slots none = All (Refused n false) slots
Chosen m n slots (some s) =
    First (accepts m true) slots s ⊎ (All (Refused m true) slots × First (accepts n false) slots s)

Chosen-second :
    (m n : Moment) (slots : List AddrSlot) (o : Option AddrSlot)
    → All (Refused m true) slots
    → Found (accepts n false) slots o
    → Chosen m n slots o
Chosen-second m n slots none h f = f
Chosen-second m n slots (some s) h f = inr (h, f)

two_passes-Chosen : (m n : Moment) (slots : List AddrSlot) → Chosen m n slots (two_passes m n slots)
unfolding two_passes
two_passes-Chosen m n slots = by_first (pass m true slots) (pass-Found m true slots)
  where
    by_first :
        (o : Option AddrSlot)
        → Found (accepts m true) slots o
        → Chosen m n slots (or_second o (pass n false slots))
    by_first none f = Chosen-second m n slots (pass n false slots) f (pass-Found n false slots)
    by_first (some s) f = inl f

-- What holds of the slots in an order that names a slot holds of the slot.
slots_at-All :
    (P : AddrSlot → Type 0) (slots : List AddrSlot) (order : List ℕ) (i : ℕ) (s : AddrSlot)
    → contains order i ≡ true
    → get_elem? slots i ≡ some s
    → All P (slots_at slots order)
    → P s
unfolding slots_at contains
slots_at-All P slots [] i s c e h = cc
slots_at-All P slots (j ∷ order) i s c e h = elim (Bool-cases (nat_eq j i)) [
  | inl here ↦ (rw (same here, e) at h).0
  | inr there ↦
      slots_at-All P slots order i s (ground (arith, c, there)) e (rest (get_elem? slots j) h)
]
  where
    same : nat_eq j i ≡ true → j ≡ i
    same q = (nat_eq_iff j i).0 q

    rest :
        (o : Option AddrSlot)
        → All P (add_slot o (slots_at slots order))
        → All P (slots_at slots order)
    rest none k = k
    rest (some t) k = k.1

below-length :
    (slots : List AddrSlot) (i : ℕ) (s : AddrSlot) → get_elem? slots i ≡ some s → i < length slots
below-length [] i s e = cc
below-length (t ∷ ts) zero s e = omega arith
below-length (t ∷ ts) (suc i) s e = omega (arith, below-length ts i s e)

-- On a ring that is not empty and where every worker owns a place, pickAvailableAddrSlot always
-- has an answer. It goes by the order of the key: the first worker that is ready and has a place;
-- if no worker is, the first with a place; and it gives none only if every worker of the pool is
-- full.
pub pick_available_addr_slot_lem :
    (m n : Moment) (shot : AddrPoolSnapshot) (key : Text) (ch : ConsistentHash)
    → shot.hash ≡ some ch
    → IsCovering ch
    → 0 < length ch.ring
    → ch.num_nodes ≡ length shot.slots
    → (ordered : List AddrSlot) × (r : Option AddrSlot) × (ordered_slots shot key ≡ some ordered)
      × (pick_available_addr_slot m n shot key ≡ some r)
      × Chosen m n ordered r
      × (r ≡ none
          → (i : ℕ) (s : AddrSlot) → get_elem? shot.slots i ≡ some s
          → try_acquire_addr_slot n s ≡ false)
unfolding pick_available_addr_slot ordered_slots
pick_available_addr_slot_lem m n shot key ch has covers some_place size =
    let (order, found, _, full, _, _) =
      get_slot_order_lem ch (length ch.ring) key covers some_place (omega arith) in
    let ordered = slots_at shot.slots order in
    let chosen = two_passes-Chosen m n ordered in
    let in_turn : ordered_slots shot key ≡ some ordered =
      ap (order_by shot.slots key) has ∙ ap (in_order shot.slots) found in
    (
      ordered,
      two_passes m n ordered,
      in_turn,
      ap (choose (two_passes m n)) in_turn,
      chosen,
      λ nothing i s e.
          slots_at-All (λ t. try_acquire_addr_slot n t ≡ false) shot.slots order i s
            (full i (omega (arith, size, below-length shot.slots i s e))) e
            (subst (Chosen m n ordered) nothing chosen),
    )
