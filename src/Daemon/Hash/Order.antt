-- ===== src/Daemon/Hash/Order.antt =====
-- The order of workers is a permutation of all of them.
use buildkit_service.Prelude.{
  ℕ, zero, suc, ◌+◌, ◌-◌, ◌%◌, ◌≤◌, ◌<◌, ◌≡◌, refl, ap, subst, ◌∙◌, ◌≢◌, Option-cases, true, false,
  ◌||◌, none, some, List, [], ◌∷◌, Text, eq_nat, length, contains, Distinct, Covers, Within,
  Covers-le-length, Distinct-length-le, Distinct-Covers, contains-append, append_one-Distinct, ltb,
  leb, nat_eq, if◌then◌else◌, Bool-cases, inl, inr, arith,
}
use native.Mathlib.Nat.{add-mod_right}
use buildkit_service.Daemon.Hash.{
  ConsistentHash, node_at, visit, slot_order_from, get_slot_order, start_index,
}

-- Every worker owns a place of the ring, and the map names workers only. The first fails where the
-- hashes of all replicas of a worker collide with those of later workers.
pub record IsCovering (ch : ConsistentHash) : Type 0 where
  pub owns : (n : ℕ) → n < ch.num_nodes → (p : ℕ) × (p < length ch.ring) × (node_at ch p ≡ n)
  pub within : (idx : ℕ) → node_at ch idx < ch.num_nodes

visit-Distinct : (order : List ℕ) (n : ℕ) → Distinct order → Distinct (visit order n)
unfolding visit
visit-Distinct order n d = ground (arith, append_one-Distinct order n)

contains-visit :
    (order : List ℕ) (n i : ℕ) → contains (visit order n) i ≡ (contains order i || nat_eq n i)
unfolding visit contains
contains-visit order n i = ground (arith, contains-append order (n ∷ []) i)

-- The visits of `k` rounds, made without the test.
visits : ConsistentHash → ℕ → ℕ → List ℕ → List ℕ
visits ch zero idx order = order
visits ch (suc k) idx order = visits ch k (idx + 1) (visit order (node_at ch idx))

visits-kept :
    (ch : ConsistentHash) (k idx : ℕ) (order : List ℕ) (i : ℕ)
    → contains order i ≡ true
    → contains (visits ch k idx order) i ≡ true
unfolding visits
visits-kept ch zero idx order i h = h
visits-kept ch (suc k) idx order i h =
    visits-kept ch k (idx + 1) (visit order (node_at ch idx)) i
      (ground (arith, contains-visit order (node_at ch idx) i))

visits-reached :
    (ch : ConsistentHash) (k idx : ℕ) (order : List ℕ) (j a : ℕ)
    → j < k
    → a ≡ idx + j
    → contains (visits ch k idx order) (node_at ch a) ≡ true
unfolding visits
visits-reached ch zero idx order j a h e = elim h [ ]
visits-reached ch (suc k) idx order zero a h e =
    visits-kept ch k (idx + 1) (visit order (node_at ch idx)) (node_at ch a) (
      let same : a ≡ idx = omega arith in
      rw same (ground (arith, contains-visit order (node_at ch idx) (node_at ch idx))))
visits-reached ch (suc k) idx order (suc j) a h e =
    visits-reached ch k (idx + 1) (visit order (node_at ch idx)) j a (omega arith) (omega arith)

-- The round in which a walk from `idx` comes to the place `p`.
round_of : ℕ → ℕ → ℕ → ℕ
round_of len idx p = if leb idx p then p - idx else p + len - idx

round_of_lt : (len idx p : ℕ) → idx < len → p < len → round_of len idx p < len
unfolding round_of
round_of_lt len idx p h k = ground arith

round_of_mod : (len idx p : ℕ) → idx < len → p < len → (idx + round_of len idx p) % len ≡ p % len
unfolding round_of
round_of_mod len idx p h k = elim (Bool-cases (leb idx p)) [
  | inl e ↦ rw e (let same : idx + (p - idx) ≡ p = ground arith in ap (λ t. t % len) same)
  | inr e ↦ rw e (
      let same : idx + (p + len - idx) ≡ p + len = omega arith in
      ap (λ t. t % len) same ∙ add-mod_right p len)
]

visits-Covers :
    (ch : ConsistentHash) (fuel idx : ℕ)
    → IsCovering ch
    → idx < length ch.ring
    → length ch.ring ≤ fuel
    → Covers ch.num_nodes (visits ch fuel idx [])
unfolding node_at
visits-Covers ch fuel idx c h enough n k =
    let (p, below, at) = c.owns n k in
    let a : ℕ = idx + round_of (length ch.ring) idx p in
    let here : node_at ch a ≡ n = rw (round_of_mod (length ch.ring) idx p h below) at in
    rw here at (
      visits-reached ch fuel idx [] (round_of (length ch.ring) idx p) a
        (omega (arith, round_of_lt (length ch.ring) idx p h below)) refl)

none-short :
    (ch : ConsistentHash) (fuel idx : ℕ) (order : List ℕ)
    → slot_order_from ch fuel idx order ≡ none
    → length (visits ch fuel idx order) < ch.num_nodes
unfolding slot_order_from visits
none-short ch zero idx order h = ground arith
none-short ch (suc fuel) idx order h =
    ground (arith, none-short ch fuel (idx + 1) (visit order (node_at ch idx)))

visit-Within : (n : ℕ) (order : List ℕ) (m : ℕ) → m < n → Within n order → Within n (visit order m)
visit-Within n order m h w i k = ground (arith, contains-visit order m i, w i)

abbrev Full : ℕ → List ℕ → Type 0
Full n r = Distinct r × Within n r × (n ≤ length r)

Full-of :
    {n : ℕ} {order r : List ℕ}
    → Distinct order
    → Within n order
    → ltb (length order) n ≡ false
    → some order ≡ some r
    → Full n r
Full-of {n} {order} {r} d w e h =
    let same : order ≡ r = cc in subst (Full n) same (d, w, ground arith)

some-Full :
    (ch : ConsistentHash) (fuel idx : ℕ) (order r : List ℕ)
    → ((i : ℕ) → node_at ch i < ch.num_nodes)
    → Distinct order
    → Within ch.num_nodes order
    → slot_order_from ch fuel idx order ≡ some r
    → Full ch.num_nodes r
unfolding slot_order_from
some-Full ch zero idx order r c d w h = elim (Bool-cases (ltb (length order) ch.num_nodes)) [
  | inl e ↦ cc (rw (e, slot_order_from) at h)
  | inr e ↦ Full-of d w e (rw (e, slot_order_from) at h)
]
some-Full ch (suc fuel) idx order r c d w h = elim (Bool-cases (ltb (length order) ch.num_nodes)) [
  | inl e ↦
      some-Full ch fuel (idx + 1) (visit order (node_at ch idx)) r c
        (visit-Distinct order (node_at ch idx) d)
        (visit-Within ch.num_nodes order (node_at ch idx) (c idx) w) (rw (e, slot_order_from) at h)
  | inr e ↦ Full-of d w e (rw (e, slot_order_from) at h)
]

start-lt :
    (ch : ConsistentHash) (key : Text) → 0 < length ch.ring → start_index ch key < length ch.ring
start-lt ch key pos = ground arith

walk-total :
    (ch : ConsistentHash) (fuel idx : ℕ)
    → IsCovering ch
    → idx < length ch.ring
    → length ch.ring ≤ fuel
    → (r : List ℕ) × (slot_order_from ch fuel idx [] ≡ some r)
walk-total ch fuel idx c h enough = elim (Option-cases (slot_order_from ch fuel idx [])) [
  | inl e ↦ absurd (
      omega (
        arith,
        none-short ch fuel idx [] e,
        Covers-le-length ch.num_nodes (visits ch fuel idx [])
            (visits-Covers ch fuel idx c h enough),
      ))
  | inr found ↦ found
]

-- On a non-empty ring in which every worker owns a place, getSlotOrder returns within as many
-- rounds as the ring has places, and returns each worker exactly once: its result names no worker
-- twice, every worker is in it, nothing else is, and its length is the number of workers.
pub get_slot_order_lem :
    (ch : ConsistentHash) (fuel : ℕ) (key : Text)
    → IsCovering ch
    → 0 < length ch.ring
    → length ch.ring ≤ fuel
    → (r : List ℕ) × (get_slot_order ch fuel key ≡ some r)
      × Distinct r
      × Covers ch.num_nodes r
      × Within ch.num_nodes r
      × (length r ≡ ch.num_nodes)
unfolding get_slot_order contains
get_slot_order_lem ch fuel key c pos enough =
    let (r, found) = walk-total ch fuel (start_index ch key) c (start-lt ch key pos) enough in
    let (d, w, full) = some-Full ch fuel (start_index ch key) [] r c.within tt (λ i h. cc) found in
    (
      r,
      ground (arith, found),
      d,
      Distinct-Covers ch.num_nodes r d w full,
      w,
      omega (arith, Distinct-length-le ch.num_nodes r d w),
    )

avoids :
    (ch : ConsistentHash) (fuel idx n : ℕ) (order r : List ℕ)
    → ((i : ℕ) → node_at ch i ≢ n)
    → contains order n ≡ false
    → slot_order_from ch fuel idx order ≡ some r
    → contains r n ≡ false
unfolding slot_order_from
avoids ch zero idx n order r a o h = ground arith
avoids ch (suc fuel) idx n order r a o h = ground (
  arith,
  contains-visit order (node_at ch idx) n,
  a idx,
  avoids ch fuel (idx + 1) n (visit order (node_at ch idx)) r a,
)

-- On a non-empty ring whose map names workers only, if one of the workers owns no place, the loop
-- of getSlotOrder does not end: no number of rounds gives a result.
pub get_slot_order-diverges :
    (ch : ConsistentHash) (fuel n : ℕ) (key : Text)
    → ((i : ℕ) → node_at ch i < ch.num_nodes)
    → 0 < length ch.ring
    → n < ch.num_nodes
    → ((i : ℕ) → node_at ch i ≢ n)
    → get_slot_order ch fuel key ≡ none
unfolding get_slot_order contains
get_slot_order-diverges ch fuel n key w pos below a =
    elim (Option-cases (slot_order_from ch fuel (start_index ch key) [])) [
      | inl e ↦ ground (arith, e)
      | inr (r, found) ↦
          let (d, inside, full) =
            some-Full ch fuel (start_index ch key) [] r w tt (λ i h. cc) found in
          ground (
            arith,
            Distinct-Covers ch.num_nodes r d inside full n below,
            avoids ch fuel (start_index ch key) n [] r a refl found,
          )
    ]
