-- ===== src/Batch/Capture.antt =====
-- internal/buildbatch/build_execution.go: buildOutputCapture, the ring that keeps the last bytes
-- of a build's output.
pub mod Tail
pub mod Written
pub mod Full
use buildkit_service.Prelude.{
  ℕ, zero, suc, ◌+◌, ◌-◌, ◌%◌, Bool, true, false, List, [], ◌∷◌, ◌++◌, length, take, drop, ltb, leb,
  if◌then◌else◌,
}

pub record BuildOutputCapture : Type 0 where
  pub buffer : List ℕ
  pub start : ℕ
  pub size : ℕ
  pub truncated : Bool

-- copy(dst, src)
unfoldable pub copy : List ℕ → List ℕ → List ℕ
copy [] dst = dst
copy (s ∷ src) [] = []
copy (s ∷ src) (d ∷ dst) = s ∷ copy src dst

-- copy(dst[off:], src)
unfoldable pub copy_at : ℕ → List ℕ → List ℕ → List ℕ
copy_at zero src dst = copy src dst
copy_at (suc off) src [] = []
copy_at (suc off) src (d ∷ dst) = d ∷ copy_at off src dst

-- How many bytes copy(dst[off:], src) copies.
abbrev pub copied : ℕ → ℕ → ℕ → ℕ
copied off src dst = if ltb src (dst - off) then src else dst - off

-- Dropping the oldest bytes where the bytes do not fit.
abbrev pub make_room : ℕ → BuildOutputCapture → BuildOutputCapture
make_room len c =
    let n = length c.buffer in
    let excess = c.size + len - n in
    if ltb n (c.size + len)
    then record c { start = (c.start + excess) % n; size = c.size - excess; truncated = true }
    else c

-- The two copies at the end of Write.
abbrev pub append_data : List ℕ → BuildOutputCapture → BuildOutputCapture
append_data bytes c =
    let n = length c.buffer in
    let end = (c.start + c.size) % n in
    let first = copied end (length bytes) n in
    record c {
      buffer = copy_at 0 (drop first bytes) (copy_at end bytes c.buffer);
      size = c.size + length bytes;
    }

unfoldable pub write : List ℕ → BuildOutputCapture → BuildOutputCapture
write bytes c =
    let n = length c.buffer in
    if leb n (length bytes)
    then record {
      buffer = copy_at 0 (drop (length bytes - n) bytes) c.buffer;
      start = 0;
      size = n;
      truncated = true;
    }
    else append_data bytes (make_room (length bytes) c)

-- The bytes that closeAndReadTail joins.
unfoldable pub contents : BuildOutputCapture → List ℕ
contents c =
    let first = copied c.start c.size (length c.buffer) in
    take first (drop c.start c.buffer) ++ take (c.size - first) c.buffer

unfoldable pub zeros : ℕ → List ℕ
zeros zero = []
zeros (suc n) = 0 ∷ zeros n

-- n: maxBuildLogBytes
unfoldable pub new_build_output_capture : ℕ → BuildOutputCapture
new_build_output_capture n = record { buffer = zeros n; start = 0; size = 0; truncated = false }

-- The writes of a command, one chunk after the other.
unfoldable pub write_all : List (List ℕ) → BuildOutputCapture → BuildOutputCapture
write_all [] c = c
write_all (bytes ∷ chunks) c = write_all chunks (write bytes c)

-- All the bytes of the chunks.
unfoldable pub output : List (List ℕ) → List ℕ
output [] = []
output (bytes ∷ chunks) = bytes ++ output chunks

-- The last n bytes.
unfoldable pub last : ℕ → List ℕ → List ℕ
last n bytes = drop (length bytes - n) bytes
