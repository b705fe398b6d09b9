-- ===== src/Batch/Capture/Tail.antt =====
-- internal/buildbatch/build_execution.go: the ring holds the last bytes that were written.
use buildkit_service.Prelude.{
  ℕ, zero, suc, ◌+◌, ◌-◌, ◌%◌, ◌≤◌, ◌<◌, ◌≡◌, refl, sym, ap, ◌∙◌, true, false, ◌&&◌, List, [], ◌∷◌,
  ◌++◌, length, take, drop, get_or, length-append, length-take, length-drop, ltb, leb,
  if◌then◌else◌, inl, inr, Bool-cases, arith,
}
use mathlib.Core.Path.{ap₂}
use native.Mathlib.Nat.{add-mod_right, mod-eq_of_lt}
use buildkit_service.Batch.Capture.{
  BuildOutputCapture, copy, copy_at, copied, make_room, append_data, contents,
}

get-copy :
    (src dst : List ℕ) (j : ℕ)
    → j < length dst
    → get_or (copy src dst) j 0 ≡ (if ltb j (length src) then get_or src j 0 else get_or dst j 0)
unfolding copy
get-copy [] dst j h = ground arith
get-copy (s ∷ src) [] j h = absurd (omega arith)
get-copy (s ∷ src) (d ∷ dst) zero h = ground arith
get-copy (s ∷ src) (d ∷ dst) (suc j) h = get-copy src dst j (omega arith) ∙ ground arith

pub length-copy : (src dst : List ℕ) → length (copy src dst) ≡ length dst
unfolding copy
length-copy [] dst = refl
length-copy (s ∷ src) [] = refl
length-copy (s ∷ src) (d ∷ dst) = ap suc (length-copy src dst)

length-copy_at : (off : ℕ) (src dst : List ℕ) → length (copy_at off src dst) ≡ length dst
unfolding copy_at
length-copy_at zero src dst = length-copy src dst
length-copy_at (suc off) src [] = refl
length-copy_at (suc off) src (d ∷ dst) = ap suc (length-copy_at off src dst)

get-copy_at :
    (off : ℕ) (src dst : List ℕ) (j : ℕ)
    → j < length dst
    → get_or (copy_at off src dst) j 0
      ≡ (if leb off j && ltb j (off + length src) then get_or src (j - off) 0 else get_or dst j 0)
unfolding copy_at
get-copy_at zero src dst j h = ground (arith, get-copy src dst j h)
get-copy_at (suc off) src [] j h = absurd (omega arith)
get-copy_at (suc off) src (d ∷ dst) zero h = ground arith
get-copy_at (suc off) src (d ∷ dst) (suc j) h =
    get-copy_at off src dst j (omega arith) ∙ ground arith

get-drop : (k : ℕ) (xs : List ℕ) (i : ℕ) → get_or (drop k xs) i 0 ≡ get_or xs (k + i) 0
get-drop zero xs i = ap (λ m. get_or xs m 0) (omega arith)
get-drop (suc k) [] i = refl
get-drop (suc k) (x ∷ xs) i = get-drop k xs i ∙ same
  where
    same : get_or xs (k + i) 0 ≡ get_or (x ∷ xs) (suc k + i) 0
    same = ap (λ m. get_or (x ∷ xs) m 0) next
      where
        next : suc (k + i) ≡ suc k + i
        next = omega arith

get-take : (k : ℕ) (xs : List ℕ) (i : ℕ) → i < k → get_or (take k xs) i 0 ≡ get_or xs i 0
get-take zero xs i h = absurd (omega arith)
get-take (suc k) [] i h = refl
get-take (suc k) (x ∷ xs) zero h = refl
get-take (suc k) (x ∷ xs) (suc i) h = get-take k xs i (omega arith)

get-append :
    (xs ys : List ℕ) (i : ℕ)
    → get_or (xs ++ ys) i 0
      ≡ (if ltb i (length xs) then get_or xs i 0 else get_or ys (i - length xs) 0)
get-append [] ys i = ground arith
get-append (x ∷ xs) ys zero = ground arith
get-append (x ∷ xs) ys (suc i) = get-append xs ys i ∙ ground arith

pub list_ext :
    (xs ys : List ℕ)
    → length xs ≡ length ys
    → ((i : ℕ) → i < length xs → get_or xs i 0 ≡ get_or ys i 0)
    → xs ≡ ys
list_ext [] [] l h = refl
list_ext [] (y ∷ ys) l h = absurd (omega arith)
list_ext (x ∷ xs) [] l h = absurd (omega arith)
list_ext (x ∷ xs) (y ∷ ys) l h =
    λ i. h 0 (omega arith) i ∷ list_ext xs ys (omega arith) (λ j lt. h (suc j) (omega arith)) i

-- A position below twice the length of the ring.
abbrev wrap : ℕ → ℕ → ℕ
wrap n k = if ltb k n then k else k - n

mod-wrap : (n k : ℕ) → k < n + n → k % n ≡ wrap n k
mod-wrap n k h = elim (Bool-cases (ltb k n)) [
  | inl e ↦ rw e (mod-eq_of_lt (ground (arith, e)))
  | inr e ↦
      let over : (k - n) + n ≡ k = ground (arith, e) in
      rw e (sym (ap (λ m. m % n) over) ∙ add-mod_right (k - n) n ∙ mod-eq_of_lt (omega arith))
]

-- A ring that is not empty, whose first byte and size lie within it.
pub record IsRing (c : BuildOutputCapture) : Type 0 where
  pub starts : c.start < length c.buffer
  pub fits : c.size ≤ length c.buffer

pub length-contents : (c : BuildOutputCapture) → IsRing c → length (contents c) ≡ c.size
unfolding contents
length-contents c v =
    let first = copied c.start c.size (length c.buffer) in
    ground (
      arith,
      v.starts,
      v.fits,
      length-append (take first (drop c.start c.buffer)) (take (c.size - first) c.buffer),
      length-take first (drop c.start c.buffer),
      length-drop c.start c.buffer,
      length-take (c.size - first) c.buffer,
    )

pub get-contents :
    (c : BuildOutputCapture) (i : ℕ)
    → IsRing c
    → i < c.size
    → get_or (contents c) i 0 ≡ get_or c.buffer (wrap (length c.buffer) (c.start + i)) 0
unfolding contents
get-contents c i v h =
    let n = length c.buffer in
    let first = copied c.start c.size n in
    let front = take first (drop c.start c.buffer) in
    let back = take (c.size - first) c.buffer in
    let size : length front ≡ first = ground (
      arith,
      v.starts,
      v.fits,
      length-take first (drop c.start c.buffer),
      length-drop c.start c.buffer,
    ) in
    get-append front back i ∙ elim (Bool-cases (ltb i first)) [
      | inl e ↦
          let there : get_or front i 0 ≡ get_or c.buffer (c.start + i) 0 =
            get-take first (drop c.start c.buffer) i (ground (arith, e))
            ∙ get-drop c.start c.buffer i in
          let inside : c.start + i < n = ground (arith, e, v.starts, v.fits) in
          ground (arith, size, e, there, inside)
      | inr e ↦
          let there : get_or back (i - first) 0 ≡ get_or c.buffer (i - first) 0 =
            get-take (c.size - first) c.buffer (i - first) (ground (arith, e)) in
          let where_to : wrap n (c.start + i) ≡ i - first = ground (arith, e, v.starts, v.fits) in
          ground (arith, size, e, there, where_to)
    ]

-- A ring that holds no more than before, from a later byte on.
make_room-eq :
    (len : ℕ) (c : BuildOutputCapture)
    → IsRing c
    → len < length c.buffer
    → (make_room len c).start ≡ wrap (length c.buffer) (c.start + (c.size + len - length c.buffer))
make_room-eq len c v h = elim (Bool-cases (ltb (length c.buffer) (c.size + len))) [
  | inl e ↦ rw e (
      mod-wrap (length c.buffer) (c.start + (c.size + len - length c.buffer))
        (ground (arith, v.starts, v.fits)))
  | inr e ↦ rw e (ground (arith, e, v.starts))
]

pub make_room-buffer : (len : ℕ) (c : BuildOutputCapture) → (make_room len c).buffer ≡ c.buffer
make_room-buffer len c = elim (Bool-cases (ltb (length c.buffer) (c.size + len))) [
  | inl e ↦ rw e refl
  | inr e ↦ rw e refl
]

pub make_room-size :
    (len : ℕ) (c : BuildOutputCapture)
    → (make_room len c).size ≡ c.size - (c.size + len - length c.buffer)
make_room-size len c = elim (Bool-cases (ltb (length c.buffer) (c.size + len))) [
  | inl e ↦ rw e refl
  | inr e ↦ rw e (ground (arith, e))
]

pub make_room-IsRing :
    (len : ℕ) (c : BuildOutputCapture) → IsRing c → len < length c.buffer → IsRing (make_room len c)
make_room-IsRing len c v h =
    let buffer = make_room-buffer len c in
    let start = make_room-eq len c v h in
    let size = make_room-size len c in
    record {
      starts = ground (arith, ap length buffer, start, v.starts, v.fits);
      fits = ground (arith, ap length buffer, size, v.fits);
    }

pub contents-make_room :
    (len : ℕ) (c : BuildOutputCapture)
    → IsRing c
    → len < length c.buffer
    → contents (make_room len c) ≡ drop (c.size + len - length c.buffer) (contents c)
contents-make_room len c v h =
    let n = length c.buffer in
    let excess = c.size + len - n in
    let ring = make_room-IsRing len c v h in
    let size = make_room-size len c in
    let total = length-contents (make_room len c) ring in
    list_ext (contents (make_room len c)) (drop excess (contents c))
      (total
        ∙ size
        ∙ sym (length-drop excess (contents c) ∙ ap (λ m. m - excess) (length-contents c v)))
      (λ i lt.
        let below : i < c.size - excess = ground (arith, total, size, lt) in
        let place : wrap (length (make_room len c).buffer) ((make_room len c).start + i)
            ≡ wrap n (c.start + (excess + i)) =
          ap₂ (λ b p. wrap (length b) (p + i)) (make_room-buffer len c) (make_room-eq len c v h)
          ∙ ground (arith, v.starts, v.fits, below) in
        get-contents (make_room len c) i ring (ground (arith, below, size))
        ∙ ap₂ (λ b p. get_or b p 0) (make_room-buffer len c) place
        ∙ sym (
            get-drop excess (contents c) i ∙ get-contents c (excess + i) v (ground (arith, below))))

-- The byte at a position of what was kept and what follows it.
join_byte :
    (bytes : List ℕ) (c : BuildOutputCapture) (i : ℕ)
    → IsRing c
    → (if ltb i (length (contents c))
        then get_or (contents c) i 0
        else get_or bytes (i - length (contents c)) 0)
      ≡ (if ltb i c.size
          then get_or c.buffer (wrap (length c.buffer) (c.start + i)) 0
          else get_or bytes (i - c.size) 0)
join_byte bytes c i v = elim (Bool-cases (ltb i c.size)) [
  | inl e ↦ rw (length-contents c v) (rw e (get-contents c i v (ground (arith, e))))
  | inr e ↦ rw (length-contents c v) (rw e refl)
]

ring_byte :
    (bytes : List ℕ) (c : BuildOutputCapture) (i : ℕ)
    → IsRing c
    → c.size + length bytes ≤ length c.buffer
    → length bytes < length c.buffer
    → i < c.size + length bytes
    → get_or (append_data bytes c).buffer (wrap (length c.buffer) (c.start + i)) 0 ≡ (
        if ltb i c.size
        then get_or c.buffer (wrap (length c.buffer) (c.start + i)) 0
        else get_or bytes (i - c.size) 0)
ring_byte bytes c i v h k lt =
    let n = length c.buffer in
    let end = (c.start + c.size) % n in
    let at_end : end ≡ wrap n (c.start + c.size) =
      mod-wrap n (c.start + c.size) (ground (arith, v.starts, v.fits)) in
    let first = copied end (length bytes) n in
    let j = wrap n (c.start + i) in
    let inside : j < n = ground (arith, v.starts, v.fits, h, lt) in
    let once = copy_at end bytes c.buffer in
    let outer =
      get-copy_at 0 (drop first bytes) once j
        (ground (arith, inside, length-copy_at end bytes c.buffer)) in
    let inner = get-copy_at end bytes c.buffer j inside in
    let rest = length-drop first bytes in
    let deep = get-drop first bytes (j - 0) in
    elim (Bool-cases (ltb i c.size)) [
      | inl e ↦
          let untouched : (leb 0 j && ltb j (0 + (length bytes - first))) ≡ false =
            ground (arith, e, at_end, v.starts, v.fits, h, k) in
          let free : (leb end j && ltb j (end + length bytes)) ≡ false =
            ground (arith, e, at_end, v.starts, v.fits, h, k) in
          ground (arith, e, outer, inner, rest, untouched, free)
      | inr e ↦ elim (Bool-cases (leb end j)) [
        | inl up ↦
            let untouched : (leb 0 j && ltb j (0 + (length bytes - first))) ≡ false =
              ground (arith, e, up, at_end, v.starts, v.fits, h, k, lt) in
            let taken : ltb j (end + length bytes) ≡ true =
              ground (arith, e, up, at_end, v.starts, v.fits, h, k, lt) in
            let same : j - end ≡ i - c.size =
              ground (arith, e, up, at_end, v.starts, v.fits, h, k, lt) in
            outer
            ∙ rw rest
                (rw untouched (inner ∙ rw up (rw taken (rw e (ap (λ m. get_or bytes m 0) same)))))
        | inr down ↦
            let wrapped : (leb 0 j && ltb j (0 + (length bytes - first))) ≡ true =
              ground (arith, e, down, at_end, v.starts, v.fits, h, k, lt) in
            let same : first + (j - 0) ≡ i - c.size =
              ground (arith, e, down, at_end, v.starts, v.fits, h, k, lt) in
            outer ∙ rw rest (rw wrapped (deep ∙ rw e (ap (λ m. get_or bytes m 0) same)))
      ]
    ]

pub append_data-room :
    (bytes : List ℕ) (c : BuildOutputCapture)
    → length (append_data bytes c).buffer ≡ length c.buffer
append_data-room bytes c =
    let end = (c.start + c.size) % length c.buffer in
    let first = copied end (length bytes) (length c.buffer) in
    length-copy_at 0 (drop first bytes) (copy_at end bytes c.buffer)
    ∙ length-copy_at end bytes c.buffer

pub append_data-IsRing :
    (bytes : List ℕ) (c : BuildOutputCapture)
    → IsRing c
    → c.size + length bytes ≤ length c.buffer
    → IsRing (append_data bytes c)
append_data-IsRing bytes c v h =
    let n = length c.buffer in
    let end = (c.start + c.size) % n in
    let first = copied end (length bytes) n in
    let kept =
      length-copy_at 0 (drop first bytes) (copy_at end bytes c.buffer)
      ∙ length-copy_at end bytes c.buffer in
    record { starts = ground (arith, kept, v.starts); fits = ground (arith, kept, h) }

pub contents-append_data :
    (bytes : List ℕ) (c : BuildOutputCapture)
    → IsRing c
    → c.size + length bytes ≤ length c.buffer
    → length bytes < length c.buffer
    → contents (append_data bytes c) ≡ contents c ++ bytes
contents-append_data bytes c v h k =
    let n = length c.buffer in
    let end = (c.start + c.size) % n in
    let first = copied end (length bytes) n in
    let ring = append_data-IsRing bytes c v h in
    let kept : length (append_data bytes c).buffer ≡ n =
      length-copy_at 0 (drop first bytes) (copy_at end bytes c.buffer)
      ∙ length-copy_at end bytes c.buffer in
    let total = length-contents (append_data bytes c) ring in
    let old = length-contents c v in
    list_ext (contents (append_data bytes c)) (contents c ++ bytes)
      (total ∙ sym (length-append (contents c) bytes ∙ ap (λ m. m + length bytes) old))
      (λ i lt.
        let below : i < c.size + length bytes = ground (arith, total, lt) in
        get-contents (append_data bytes c) i ring below
        ∙ ap (λ m. get_or (append_data bytes c).buffer (wrap m (c.start + i)) 0) kept
        ∙ ring_byte bytes c i v h k below
        ∙ sym (get-append (contents c) bytes i ∙ join_byte bytes c i v))
