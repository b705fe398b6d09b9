-- ===== src/Tests/Captures.antt =====
-- The ring of build output: internal/buildbatch/build_execution.go.
use buildkit_service.Prelude.{ℕ, ◌≡◌, refl, List, [], ◌∷◌, true, arith}
use buildkit_service.Batch.Capture.{
  copy, copy_at, write, contents, zeros, new_build_output_capture, write_all, output, last,
}
use buildkit_service.Batch.Capture.Written.{contents-write_all}

-- Six bytes in three writes.
abbrev chunks : List (List ℕ)
chunks = (1 ∷ 2 ∷ []) ∷ (3 ∷ 4 ∷ 5 ∷ []) ∷ (6 ∷ []) ∷ []

wrapped :
    write_all chunks (new_build_output_capture 4)
    ≡ record { buffer = 5 ∷ 6 ∷ 3 ∷ 4 ∷ []; start = 2; size = 4; truncated = true }
unfolding write_all write copy_at copy new_build_output_capture zeros
wrapped = refl

last_four : last 4 (output chunks) ≡ 3 ∷ 4 ∷ 5 ∷ 6 ∷ []
unfolding last output
last_four = refl

contents-write_all_example :
    contents (write_all chunks (new_build_output_capture 4)) ≡ last 4 (output chunks)
contents-write_all_example = contents-write_all chunks 4 (omega arith)
