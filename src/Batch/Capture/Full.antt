-- ===== src/Batch/Capture/Full.antt =====
-- internal/buildbatch/build_execution.go: a write that just fills a new ring.
use buildkit_service.Prelude.{
  ℕ, ◌-◌, ◌<◌, ◌≡◌, refl, ap, ◌∙◌, true, List, [], ◌∷◌, length, drop, leb, append_nil, arith,
}
use buildkit_service.Batch.Capture.{
  write, contents, zeros, new_build_output_capture, write_all, output, last,
}
use buildkit_service.Batch.Capture.Written.{contents-write_all, length-zeros}

-- One write of n bytes to a new ring of n bytes, n not zero, marks the output as cut, although the
-- ring holds all of it.
pub write-full_ring :
    (bytes : List ℕ)
    → 0 < length bytes
    → ((write bytes (new_build_output_capture (length bytes))).truncated ≡ true)
      × (contents (write bytes (new_build_output_capture (length bytes))) ≡ bytes)
unfolding write write_all output last new_build_output_capture
write-full_ring bytes h = (
  marked,
  contents-write_all (bytes ∷ []) (length bytes) h
      ∙ ap (last (length bytes)) (append_nil bytes)
      ∙ ap (λ m. drop m bytes) nothing,
)
  where
    full : leb (length (zeros (length bytes))) (length bytes) ≡ true
    full = ground (arith, length-zeros (length bytes))

    nothing : length bytes - length bytes ≡ 0
    nothing = omega arith

    marked : (write bytes (new_build_output_capture (length bytes))).truncated ≡ true
    marked = rw full refl
