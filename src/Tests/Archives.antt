-- ===== src/Tests/Archives.antt =====
-- Archives and logs: internal/builddaemon/workspace.go.
use buildkit_service.Prelude.{ℕ, ◌≡◌, refl, true, false, none, some, List, [], ◌∷◌, Text, text}
use buildkit_service.Daemon.Archive.{
  ZipEntry, validate_build_archive_path, extract_zip, too_many_bytes,
}
use buildkit_service.Daemon.Archive.Unpacking.{IsSafe, extract_zip-IsSafe}

abbrev file : Text → List ℕ → ZipEntry
file name bytes = record {
  name = name;
  is_dir = false;
  mode = 511;
  uncompressed_size = 1;
  content = record { bytes = bytes; failure = none };
  open_error = none;
  partial = 0;
  write_error = none;
  close_error = none;
  removable = true;
}

-- The second file is longer than its header says.
abbrev archive : List ZipEntry
archive = file (text "a/../b") (1 ∷ []) ∷ file (text "c") (2 ∷ 3 ∷ 4 ∷ []) ∷ []

climbs : validate_build_archive_path (text "a/../../b") ≡ false
unfolding validate_build_archive_path
climbs = refl

extracted : extract_zip (text "srv" ∷ []) 3 9 archive ≡ record {
  files = record { path = text "b" ∷ text "srv" ∷ []; mode = 420; bytes = 1 ∷ [] } ∷ [];
  extracted_bytes = 1;
  error = some too_many_bytes;
}
unfolding extract_zip
extracted = refl

extract_zip-IsSafe_example :
    IsSafe (text "srv" ∷ []) 3 9 (extract_zip (text "srv" ∷ []) 3 9 archive)
extract_zip-IsSafe_example = extract_zip-IsSafe (text "srv" ∷ []) 3 9 archive
