-- ===== src/Batch/Capture/Written.antt =====
-- internal/buildbatch/build_execution.go: what the ring holds after any sequence of writes.
use buildkit_service.Prelude.{
  ℕ, zero, suc, ◌+◌, ◌-◌, ◌≤◌, ◌<◌, ◌≡◌, refl, sym, ap, ◌∙◌, subst, true, false, List, [], ◌∷◌,
  ◌++◌, length, drop, get_or, length-append, length-drop, leb, append_nil, append_assoc, inl, inr,
  Bool-cases, arith,
}
use buildkit_service.Batch.Capture.{
  BuildOutputCapture, copy, copy_at, make_room, append_data, write, contents,
  new_build_output_capture, write_all, zeros, last, output,
}
use buildkit_service.Batch.Capture.Tail.{
  IsRing, length-contents, get-contents, list_ext, make_room-IsRing, make_room-size,
  make_room-buffer, contents-make_room, contents-append_data, append_data-IsRing, append_data-room,
}

drop-append_le : (k : ℕ) (xs ys : List ℕ) → k ≤ length xs → drop k (xs ++ ys) ≡ drop k xs ++ ys
drop-append_le zero xs ys h = refl
drop-append_le (suc k) [] ys h = absurd (omega arith)
drop-append_le (suc k) (x ∷ xs) ys h = drop-append_le k xs ys (omega arith)

drop-append_ge : (k : ℕ) (xs ys : List ℕ) → drop (length xs + k) (xs ++ ys) ≡ drop k ys
drop-append_ge k [] ys = ap (λ m. drop m ys) (omega arith)
drop-append_ge k (x ∷ xs) ys = ap (λ m. drop m ((x ∷ xs) ++ ys)) next ∙ drop-append_ge k xs ys
  where
    next : length (x ∷ xs) + k ≡ suc (length xs + k)
    next = ground arith

drop_nil : (k : ℕ) → drop {A = ℕ} k [] ≡ []
drop_nil zero = refl
drop_nil (suc k) = refl

drop-drop : (k j : ℕ) (xs : List ℕ) → drop k (drop j xs) ≡ drop (j + k) xs
drop-drop k zero xs = ap (λ m. drop m xs) (omega arith)
drop-drop k (suc j) [] = drop_nil k ∙ sym (drop_nil (suc j + k))
drop-drop k (suc j) (x ∷ xs) = drop-drop k j xs ∙ ap (λ m. drop m (x ∷ xs)) next
  where
    next : suc (j + k) ≡ suc j + k
    next = omega arith

copy-full : (src dst : List ℕ) → length src ≡ length dst → copy src dst ≡ src
unfolding copy
copy-full [] [] h = refl
copy-full [] (d ∷ dst) h = absurd (omega arith)
copy-full (s ∷ src) [] h = absurd (omega arith)
copy-full (s ∷ src) (d ∷ dst) h = ap (λ r. s ∷ r) (copy-full src dst (omega arith))

-- What holds of a ring of n bytes after the bytes `seen`.
record Holds (n : ℕ) (seen : List ℕ) (c : BuildOutputCapture) : Type 0 where
  room : length c.buffer ≡ n
  ring : IsRing c
  bytes_kept : contents c ≡ last n seen

last-append : (n : ℕ) (xs ys : List ℕ) → last n (last n xs ++ ys) ≡ last n (xs ++ ys)
unfolding last
last-append n xs ys =
    let j = length xs - n in
    let joined : drop j (xs ++ ys) ≡ drop j xs ++ ys = drop-append_le j xs ys (omega arith) in
    let k = length (drop j xs ++ ys) - n in
    let total : j + k ≡ length (xs ++ ys) - n =
      ground (arith, length-append (drop j xs) ys, length-drop j xs, length-append xs ys) in
    ap (drop k) (sym joined) ∙ drop-drop k j (xs ++ ys) ∙ ap (λ m. drop m (xs ++ ys)) total

last-over : (n : ℕ) (xs ys : List ℕ) → n ≤ length ys → last n (xs ++ ys) ≡ drop (length ys - n) ys
unfolding last
last-over n xs ys h =
    let total : length (xs ++ ys) - n ≡ length xs + (length ys - n) =
      ground (arith, length-append xs ys) in
    ap (λ m. drop m (xs ++ ys)) total ∙ drop-append_ge (length ys - n) xs ys

-- A write that fills the ring.
abbrev filled : List ℕ → BuildOutputCapture → BuildOutputCapture
filled bytes c = record {
  buffer = copy_at 0 (drop (length bytes - length c.buffer) bytes) c.buffer;
  start = 0;
  size = length c.buffer;
  truncated = true;
}

filled-buffer :
    (bytes : List ℕ) (c : BuildOutputCapture)
    → length c.buffer ≤ length bytes
    → (filled bytes c).buffer ≡ drop (length bytes - length c.buffer) bytes
unfolding copy_at
filled-buffer bytes c h =
    copy-full (drop (length bytes - length c.buffer) bytes) c.buffer
      (ground (arith, length-drop (length bytes - length c.buffer) bytes, h))

filled-IsRing :
    (bytes : List ℕ) (c : BuildOutputCapture)
    → IsRing c
    → length c.buffer ≤ length bytes
    → IsRing (filled bytes c)
filled-IsRing bytes c v h =
    let same : length (filled bytes c).buffer ≡ length c.buffer =
      ap length (filled-buffer bytes c h)
      ∙ ground (arith, length-drop (length bytes - length c.buffer) bytes, h) in
    record {
      starts = subst (λ m. 0 < m) (sym same) (ground (arith, v.starts));
      fits = subst (λ m. length c.buffer ≤ m) (sym same) (omega arith);
    }

contents-filled :
    (bytes : List ℕ) (c : BuildOutputCapture)
    → IsRing c
    → length c.buffer ≤ length bytes
    → contents (filled bytes c) ≡ drop (length bytes - length c.buffer) bytes
contents-filled bytes c v h =
    let ring = filled-IsRing bytes c v h in
    let same : length (filled bytes c).buffer ≡ length c.buffer =
      ap length (filled-buffer bytes c h)
      ∙ ground (arith, length-drop (length bytes - length c.buffer) bytes, h) in
    let total = length-contents (filled bytes c) ring in
    list_ext (contents (filled bytes c)) (drop (length bytes - length c.buffer) bytes)
      (total ∙ sym same ∙ ap length (filled-buffer bytes c h))
      (λ i lt.
        let below : i < length c.buffer = ground (arith, total, lt) in
        get-contents (filled bytes c) i ring below
        ∙ ap (λ m. get_or (filled bytes c).buffer m 0) (ground (arith, same, below))
        ∙ ap (λ b. get_or b i 0) (filled-buffer bytes c h))

write-over :
    (bytes : List ℕ) (n : ℕ) (seen : List ℕ) (c : BuildOutputCapture)
    → Holds n seen c
    → leb (length c.buffer) (length bytes) ≡ true
    → Holds n (seen ++ bytes) (filled bytes c)
write-over bytes n seen c v e =
    let long : length c.buffer ≤ length bytes = ground (arith, e) in
    record {
      room =
          ap length (filled-buffer bytes c long)
          ∙ ground (arith, length-drop (length bytes - length c.buffer) bytes, long, v.room);
      ring = filled-IsRing bytes c v.ring long;
      bytes_kept =
          contents-filled bytes c v.ring long
          ∙ ap (λ m. drop (length bytes - m) bytes) v.room
          ∙ sym (last-over n seen bytes (ground (arith, long, v.room)));
    }

write-fits :
    (bytes : List ℕ) (n : ℕ) (seen : List ℕ) (c : BuildOutputCapture)
    → Holds n seen c
    → leb (length c.buffer) (length bytes) ≡ false
    → Holds n (seen ++ bytes) (append_data bytes (make_room (length bytes) c))
unfolding last
write-fits bytes n seen c v e =
    let short : length bytes < length c.buffer = ground (arith, e) in
    let len = length bytes in
    let roomy = make_room len c in
    let same : length roomy.buffer ≡ length c.buffer = ap length (make_room-buffer len c) in
    let ready = make_room-IsRing len c v.ring short in
    let fits : roomy.size + len ≤ length roomy.buffer =
      ground (arith, make_room-size len c, same, short, v.ring.fits) in
    let old = length-contents c v.ring in
    let excess = c.size + len - length c.buffer in
    let total : excess ≡ length (contents c ++ bytes) - n =
      ground (arith, length-append (contents c) bytes, old, v.room) in
    record {
      room = append_data-room bytes roomy ∙ same ∙ v.room;
      ring = append_data-IsRing bytes roomy ready fits;
      bytes_kept =
          contents-append_data bytes roomy ready fits (ground (arith, same, short))
          ∙ ap (λ b. b ++ bytes) (contents-make_room len c v.ring short)
          ∙ sym (drop-append_le excess (contents c) bytes (ground (arith, old, short, v.ring.fits)))
          ∙ ap (λ m. drop m (contents c ++ bytes)) total
          ∙ ap (λ b. last n (b ++ bytes)) v.bytes_kept
          ∙ last-append n seen bytes;
    }

write-Holds :
    (bytes : List ℕ) (n : ℕ) (seen : List ℕ) (c : BuildOutputCapture)
    → Holds n seen c
    → Holds n (seen ++ bytes) (write bytes c)
unfolding write
write-Holds bytes n seen c v = elim (Bool-cases (leb (length c.buffer) (length bytes))) [
  | inl e ↦ rw e (write-over bytes n seen c v e)
  | inr e ↦ rw e (write-fits bytes n seen c v e)
]

write_all-Holds :
    (chunks : List (List ℕ)) (n : ℕ) (seen : List ℕ) (c : BuildOutputCapture)
    → Holds n seen c
    → Holds n (seen ++ output chunks) (write_all chunks c)
unfolding write_all output
write_all-Holds [] n seen c v = subst (λ b. Holds n b c) (sym (append_nil seen)) v
write_all-Holds (bytes ∷ chunks) n seen c v =
    subst (λ b. Holds n b (write_all chunks (write bytes c)))
      (append_assoc seen bytes (output chunks))
      (write_all-Holds chunks n (seen ++ bytes) (write bytes c) (write-Holds bytes n seen c v))

pub length-zeros : (n : ℕ) → length (zeros n) ≡ n
unfolding zeros
length-zeros zero = refl
length-zeros (suc n) = ap suc (length-zeros n)

new-IsRing : (n : ℕ) → 0 < n → IsRing (new_build_output_capture n)
unfolding new_build_output_capture
new-IsRing n h = record { starts = ground (arith, length-zeros n, h); fits = omega arith }

new-Holds : (n : ℕ) → 0 < n → Holds n [] (new_build_output_capture n)
unfolding new_build_output_capture last contents
new-Holds n h = record {
  room = length-zeros n;
  ring = new-IsRing n h;
  bytes_kept =
      list_ext (contents (new_build_output_capture n)) (last n [])
        (length-contents (new_build_output_capture n) (new-IsRing n h)
          ∙ sym (ap length (drop_nil (0 - n))))
        (λ i lt.
          absurd
            (ground (arith, length-contents (new_build_output_capture n) (new-IsRing n h), lt)));
}

-- However the output of a command is cut into writes, a new ring of n bytes, n not zero, then
-- holds its last n bytes in their order, or all of them where there are no more.
pub contents-write_all :
    (chunks : List (List ℕ)) (n : ℕ)
    → 0 < n
    → contents (write_all chunks (new_build_output_capture n)) ≡ last n (output chunks)
contents-write_all chunks n h =
    (write_all-Holds chunks n [] (new_build_output_capture n) (new-Holds n h)).bytes_kept
