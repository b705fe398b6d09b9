-- ===== src/Daemon/Pool/Replace.antt =====
-- internal/builddaemon/scheduler.go: what replacing the addresses of the pool keeps.
use buildkit_service.Prelude.{
  ℕ, ◌≤◌, ◌≡◌, refl, sym, ap, subst, ◌∙◌, ◌⊎◌, inl, inr, false, Option, none, some, List, [], ◌∷◌,
  Map, Text, eq_text, lookup, insert, lookup-insert, text_eq, text_eq_iff, member, All, Bool-cases,
  arith, sort_by, insert_by, text_ltb, All-sort_by, if◌then◌else◌,
}
use buildkit_service.Daemon.Pool.{
  BuildkitAddr, AddrSlot, AddrPool, slot_address_keys, addresses, existing_slots, slot_for,
  new_slots, before, replace,
}

-- A slot of a list.
abbrev pub Among : AddrSlot → List AddrSlot → Type 0
Among s [] = ⊥
Among s (t ∷ ts) = (t ≡ s) ⊎ Among s ts

existing_slots-found :
    (ss : List AddrSlot) (m : Map Text AddrSlot) (k : Text) (s : AddrSlot)
    → lookup k (existing_slots ss m) ≡ some s
    → (lookup k m ≡ some s) ⊎ (Among s ss × (s.addr.addr ≡ k))
unfolding existing_slots
existing_slots-found [] m k s h = inl h
existing_slots-found (t ∷ ss) m k s h =
    elim (existing_slots-found ss (insert t.addr.addr t m) k s h) [
      | inr (a, e) ↦ inr (inr a, e)
      | inl e ↦ here (lookup-insert t.addr.addr k t m) e
    ]
  where
    here :
        lookup k (insert t.addr.addr t m) ≡ (if text_eq t.addr.addr k then some t else lookup k m)
        → lookup k (insert t.addr.addr t m) ≡ some s
        → (lookup k m ≡ some s) ⊎ (Among s (t ∷ ss) × (s.addr.addr ≡ k))
    here e f = elim (Bool-cases (text_eq t.addr.addr k)) [
      | inl same ↦
          let found : t ≡ s = ground (arith, same, e, f) in
          inr (inl found, ap (λ u. u.addr.addr) (sym found) ∙ (text_eq_iff t.addr.addr k).0 same)
      | inr other ↦ inl (ground (arith, other, e, f))
    ]

existing_slots-missing :
    (ss : List AddrSlot) (m : Map Text AddrSlot) (k : Text)
    → lookup k (existing_slots ss m) ≡ none
    → (lookup k m ≡ none) × (member k (slot_address_keys ss) ≡ false)
unfolding existing_slots member slot_address_keys
existing_slots-missing [] m k h = (h, refl)
existing_slots-missing (t ∷ ss) m k h =
    let (e, f) = existing_slots-missing ss (insert t.addr.addr t m) k h in
    ground (arith, e, f, lookup-insert t.addr.addr k t m)

-- A slot of the pool, or a new one: the name of its semaphore is new, its capacity the pool's
-- concurrency, and its address was not in the pool.
abbrev pub Kept : AddrPool → AddrSlot → Type 0
Kept p s =
    Among s p.slots
    ⊎ ((p.next_sem ≤ s.sem)
        × (s.capacity ≡ p.concurrency)
        × (member s.addr.addr (addresses p) ≡ false))

-- The addresses that are not nil.
abbrev pub present : List (Option BuildkitAddr) → List Text
present [] = []
present (none ∷ addrs) = present addrs
present (some a ∷ addrs) = a.addr ∷ present addrs

slot_for-Kept :
    (p : AddrPool) (a : BuildkitAddr) (next : ℕ) (o : Option AddrSlot)
    → p.next_sem ≤ next
    → lookup a.addr (existing_slots p.slots []) ≡ o
    → Kept p (slot_for p.concurrency a next o).1
      × (next ≤ (slot_for p.concurrency a next o).0)
      × ((slot_for p.concurrency a next o).1.addr.addr ≡ a.addr)
unfolding slot_for lookup addresses
slot_for-Kept p a next none le h =
    (inr (le, refl, (existing_slots-missing p.slots [] a.addr h).1), omega arith, refl)
slot_for-Kept p a next (some s) le h = elim (existing_slots-found p.slots [] a.addr s h) [
  | inl e ↦ cc
  | inr (among, e) ↦ (inl among, omega arith, e)
]

new_slots-Kept :
    (p : AddrPool) (addrs : List (Option BuildkitAddr)) (next : ℕ)
    → p.next_sem ≤ next
    → All (Kept p) (new_slots (existing_slots p.slots []) p.concurrency addrs next).1
unfolding new_slots
new_slots-Kept p [] next le = tt
new_slots-Kept p (none ∷ addrs) next le = new_slots-Kept p addrs next le
new_slots-Kept p (some a ∷ addrs) next le =
    let found = slot_for-Kept p a next (lookup a.addr (existing_slots p.slots [])) le refl in
    (
      found.0,
      new_slots-Kept p addrs
          (slot_for p.concurrency a next (lookup a.addr (existing_slots p.slots []))).0
          (omega (arith, found.1)),
    )

new_slots-keys :
    (p : AddrPool) (addrs : List (Option BuildkitAddr)) (next : ℕ)
    → p.next_sem ≤ next
    → slot_address_keys (new_slots (existing_slots p.slots []) p.concurrency addrs next).1
      ≡ present addrs
unfolding new_slots slot_address_keys
new_slots-keys p [] next le = refl
new_slots-keys p (none ∷ addrs) next le = new_slots-keys p addrs next le
new_slots-keys p (some a ∷ addrs) next le =
    let found = slot_for-Kept p a next (lookup a.addr (existing_slots p.slots [])) le refl in
    cc (
      found.2,
      new_slots-keys p addrs
          (slot_for p.concurrency a next (lookup a.addr (existing_slots p.slots []))).0
          (omega (arith, found.1)),
    )

insert_by-keys :
    (x : AddrSlot) (ss : List AddrSlot)
    → slot_address_keys (insert_by before x ss)
      ≡ insert_by text_ltb x.addr.addr (slot_address_keys ss)
unfolding insert_by slot_address_keys
insert_by-keys x [] = refl
insert_by-keys x (s ∷ ss) = ground (arith, insert_by-keys x ss)

sort_by-keys :
    (ss : List AddrSlot)
    → slot_address_keys (sort_by before ss) ≡ sort_by text_ltb (slot_address_keys ss)
unfolding sort_by slot_address_keys
sort_by-keys [] = refl
sort_by-keys (s ∷ ss) =
    insert_by-keys s (sort_by before ss) ∙ ap (insert_by text_ltb s.addr.addr) (sort_by-keys ss)

-- After a replacement the pool has the given addresses that are not nil, sorted, one slot to each;
-- a slot is one of the old pool, with its semaphore, or it is new and so is the name of its
-- semaphore, its capacity is the pool's concurrency, and the old pool did not have its address.
pub replace_lem :
    (addrs : List (Option BuildkitAddr)) (p : AddrPool)
    → (addresses (replace addrs p) ≡ sort_by text_ltb (present addrs))
      × All (Kept p) (replace addrs p).slots
unfolding replace addresses
replace_lem addrs p =
    let made : List AddrSlot =
      (new_slots (existing_slots p.slots []) p.concurrency addrs p.next_sem).1 in
    (
      sort_by-keys made ∙ ap (sort_by text_ltb) (new_slots-keys p addrs p.next_sem (omega arith)),
      All-sort_by before (Kept p) made (new_slots-Kept p addrs p.next_sem (omega arith)),
    )

keys-All :
    (Q : Text → Type 0) (ss : List AddrSlot)
    → All Q (slot_address_keys ss)
    → All (λ s. Q s.addr.addr) ss
unfolding slot_address_keys
keys-All Q [] h = tt
keys-All Q (s ∷ ss) h = (h.0, keys-All Q ss h.1)

pub replace-All :
    (Q : Text → Type 0) (addrs : List (Option BuildkitAddr)) (p : AddrPool)
    → All Q (present addrs)
    → All (λ s. Q s.addr.addr) (replace addrs p).slots
unfolding addresses
replace-All Q addrs p h =
    keys-All Q (replace addrs p).slots
      (subst (All Q) (sym (replace_lem addrs p).0) (All-sort_by text_ltb Q (present addrs) h))
