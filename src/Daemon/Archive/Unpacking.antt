-- ===== src/Daemon/Archive/Unpacking.antt =====
-- internal/builddaemon/workspace.go: what extractZip leaves on disk, whatever the archive.
use buildkit_service.Prelude.{
  ℕ, suc, ◌+◌, ◌-◌, ◌≤◌, ◌<◌, ◌≡◌, refl, Bool, true, false, Option, none, some, List, [], ◌∷◌, ◌++◌,
  Text, All, All-append, length, length-append, length-take, take, ltb, Result, ok, err, inl, inr,
  Bool-cases, if◌then◌else◌, arith,
}
use buildkit_service.Daemon.Workspace.{Source, copied, copy_with_limit, or_error}
use buildkit_service.Daemon.Archive.{
  validate_build_archive_path, join, ZipEntry, ExtractedFile, Extraction, ExtractError, file_mode,
  fails, invalid_path, too_many_files, too_many_bytes, file_error, put_file, after_close,
  after_remove, after_copy, after_open, after_mkdir, extract_entry, stopped, extract_entries,
  extract_zip,
}
use buildkit_service.Daemon.Archive.Paths.{IsBelow, join-IsBelow}

abbrev pub bytes_of : List ExtractedFile → ℕ
bytes_of [] = 0
bytes_of (f ∷ files) = length f.bytes + bytes_of files

-- A file strictly below the directory, with usable permissions of at most 0755.
abbrev pub IsHarmless : List Text → ExtractedFile → Type 0
IsHarmless dst f = IsBelow dst f.path × (0 < f.mode) × (f.mode ≤ 493)

bytes_of-append : (fs gs : List ExtractedFile) → bytes_of (fs ++ gs) ≡ bytes_of fs + bytes_of gs
bytes_of-append [] gs = omega arith
bytes_of-append (f ∷ fs) gs = omega (arith, bytes_of-append fs gs)

-- After some entries.
pub record IsSafe (dst : List Text) (max_bytes count : ℕ) (x : Extraction) : Type 0 where
  pub harmless : All (IsHarmless dst) x.files
  pub in_budget : bytes_of x.files ≤ max_bytes
  pub counted : stopped x.error ≡ false → x.extracted_bytes ≡ bytes_of x.files
  pub few : length x.files ≤ count

-- What copyWithLimit copies is within its limit.
abbrev Fits : ℕ → Result Text (List ℕ × Bool) → Type 0
Fits limit (err e) = Unit {0}
Fits limit (ok (bytes, more')) = length bytes ≤ limit

copy_with_limit-Fits :
    (o : Option Text) (limit : ℕ) (src : Source) → Fits limit (copy_with_limit o limit src)
unfolding copy_with_limit
copy_with_limit-Fits (some e) limit src = tt
copy_with_limit-Fits none limit src = elim (Bool-cases (ltb limit (length src.bytes))) [
  | inl over ↦ rw over (omega (arith, length-take {0} limit src.bytes))
  | inr whole ↦ rw whole (by_failure src.failure)
]
  where
    by_failure : (f : Option Text) → Fits limit (or_error f (copied limit src, false))
    by_failure none = omega (arith, length-take {0} limit src.bytes)
    by_failure (some e) = tt

module _ (dst : List Text) (max_bytes count : ℕ) where
  fails-IsSafe :
      (e : ExtractError) (x : Extraction)
      → IsSafe dst max_bytes count x
      → IsSafe dst max_bytes (suc count) (fails e x)
  fails-IsSafe e x v = record {
    harmless = v.harmless;
    in_budget = v.in_budget;
    counted = λ h. cc;
    few = omega (arith, v.few);
  }

  more : (x : Extraction) → IsSafe dst max_bytes count x → IsSafe dst max_bytes (suc count) x
  more x v = record {
    harmless = v.harmless;
    in_budget = v.in_budget;
    counted = v.counted;
    few = omega (arith, v.few);
  }

  put_file-IsHarmless :
      (entry : ZipEntry) (bytes : List ℕ) (x : Extraction)
      → validate_build_archive_path entry.name ≡ true
      → All (IsHarmless dst) x.files
      → All (IsHarmless dst) (put_file (join dst entry.name) entry bytes x).files
  put_file-IsHarmless entry bytes x valid h =
      All-append (IsHarmless dst) x.files _
        (h, ((join-IsBelow dst entry.name valid, ground arith, ground arith), tt))

  put_file-bytes :
      (target : List Text) (entry : ZipEntry) (bytes : List ℕ) (x : Extraction)
      → bytes_of (put_file target entry bytes x).files ≡ bytes_of x.files + length bytes
  put_file-bytes target entry bytes x = omega (
    arith,
    bytes_of-append x.files
        (record { path = target; mode = file_mode entry.mode; bytes = bytes } ∷ []),
  )

  put_file-length :
      (target : List Text) (entry : ZipEntry) (bytes : List ℕ) (x : Extraction)
      → length (put_file target entry bytes x).files ≡ suc (length x.files)
  put_file-length target entry bytes x = omega (
    arith,
    length-append {0} x.files
        (record { path = target; mode = file_mode entry.mode; bytes = bytes } ∷ []),
  )

  -- A file of at most the bytes that remain, with an error or with its bytes counted.
  put_file-IsSafe :
      (entry : ZipEntry) (bytes : List ℕ) (n : ℕ) (o : Option ExtractError) (x : Extraction)
      → validate_build_archive_path entry.name ≡ true
      → stopped x.error ≡ false
      → length bytes ≤ max_bytes - x.extracted_bytes
      → (stopped o ≡ false → n ≡ x.extracted_bytes + length bytes)
      → IsSafe dst max_bytes count x
      → IsSafe dst max_bytes
          (suc count)
          (record (put_file (join dst entry.name) entry bytes x) { extracted_bytes = n; error = o })
  put_file-IsSafe entry bytes n o x valid goes fits right v =
      let total = put_file-bytes (join dst entry.name) entry bytes x in
      let so_far = v.counted goes in
      record {
        harmless = put_file-IsHarmless entry bytes x valid v.harmless;
        in_budget = omega (arith, total, so_far, fits, v.in_budget);
        counted = λ h. omega (arith, right h, so_far, total);
        few = omega (arith, put_file-length (join dst entry.name) entry bytes x, v.few);
      }

  after_remove-IsSafe :
      (entry : ZipEntry) (bytes : List ℕ) (removed : Bool) (x : Extraction)
      → validate_build_archive_path entry.name ≡ true
      → stopped x.error ≡ false
      → length bytes ≤ max_bytes - x.extracted_bytes
      → IsSafe dst max_bytes count x
      → IsSafe dst max_bytes (suc count) (after_remove (join dst entry.name) entry bytes removed x)
  after_remove-IsSafe entry bytes true x valid goes fits v = fails-IsSafe too_many_bytes x v
  after_remove-IsSafe entry bytes false x valid goes fits v =
      put_file-IsSafe entry bytes x.extracted_bytes (some too_many_bytes) x valid goes fits
        (λ h. cc) v

  after_copy-IsSafe :
      (entry : ZipEntry) (r : Result Text (List ℕ × Bool)) (x : Extraction)
      → validate_build_archive_path entry.name ≡ true
      → stopped x.error ≡ false
      → Fits (max_bytes - x.extracted_bytes) r
      → IsSafe dst max_bytes count x
      → IsSafe dst max_bytes
          (suc count)
          (after_copy (join dst entry.name) entry (max_bytes - x.extracted_bytes) r x)
  after_copy-IsSafe entry (err e) x valid goes fits v =
      put_file-IsSafe entry
        (take entry.partial (copied (max_bytes - x.extracted_bytes) entry.content))
        x.extracted_bytes (some (file_error e)) x valid goes
        (omega (
          arith,
          length-take {0} entry.partial (copied (max_bytes - x.extracted_bytes) entry.content),
          length-take {0} (max_bytes - x.extracted_bytes) entry.content.bytes,
        ))
        (λ h. cc) v
  after_copy-IsSafe entry (ok (bytes, true)) x valid goes fits v =
      after_remove-IsSafe entry bytes entry.removable x valid goes fits v
  after_copy-IsSafe entry (ok (bytes, false)) x valid goes fits v = by_close entry.close_error
    where
      by_close :
          (o : Option Text)
          → IsSafe dst max_bytes (suc count) (
              after_close o (record (put_file (join dst entry.name) entry bytes x) {
                extracted_bytes = x.extracted_bytes + length bytes;
              }))
      by_close none =
          put_file-IsSafe entry bytes (x.extracted_bytes + length bytes) x.error x valid goes fits
            (λ h. refl) v
      by_close (some e) =
          put_file-IsSafe entry bytes (x.extracted_bytes + length bytes) (some (file_error e)) x
            valid goes fits (λ h. refl) v

  after_open-IsSafe :
      (entry : ZipEntry) (o : Option Text) (x : Extraction)
      → validate_build_archive_path entry.name ≡ true
      → stopped x.error ≡ false
      → IsSafe dst max_bytes count x
      → IsSafe dst max_bytes
          (suc count)
          (after_open (join dst entry.name) entry (max_bytes - x.extracted_bytes) o x)
  after_open-IsSafe entry (some e) x valid goes v = fails-IsSafe (file_error e) x v
  after_open-IsSafe entry none x valid goes v =
      after_copy-IsSafe entry
        (copy_with_limit entry.write_error (max_bytes - x.extracted_bytes) entry.content) x valid
        goes (copy_with_limit-Fits entry.write_error (max_bytes - x.extracted_bytes) entry.content)
        v

  after_mkdir-IsSafe :
      (o : Option Text) (x : Extraction)
      → IsSafe dst max_bytes count x
      → IsSafe dst max_bytes (suc count) (after_mkdir o x)
  after_mkdir-IsSafe none x v = more x v
  after_mkdir-IsSafe (some e) x v = fails-IsSafe (file_error e) x v

  extract_entry-IsSafe :
      (entry : ZipEntry) (x : Extraction)
      → stopped x.error ≡ false
      → IsSafe dst max_bytes count x
      → IsSafe dst max_bytes (suc count) (extract_entry dst max_bytes entry x)
  unfolding extract_entry
  extract_entry-IsSafe entry x goes v = elim (Bool-cases (validate_build_archive_path entry.name)) [
    | inr bad ↦ rw bad (fails-IsSafe (invalid_path entry.name) x v)
    | inl valid ↦ rw valid (by_kind valid entry.is_dir)
  ]
    where
      by_kind :
          validate_build_archive_path entry.name ≡ true
          → (b : Bool)
          → IsSafe dst max_bytes (suc count) (
              if b
              then after_mkdir entry.open_error x
              else if ltb (max_bytes - x.extracted_bytes) entry.uncompressed_size
              then fails too_many_bytes x
              else after_open
                  (join dst entry.name)
                  entry
                  (max_bytes - x.extracted_bytes)
                  entry.open_error
                  x)
      by_kind valid true = after_mkdir-IsSafe entry.open_error x v
      by_kind valid false =
          elim (Bool-cases (ltb (max_bytes - x.extracted_bytes) entry.uncompressed_size)) [
            | inl big ↦ rw big (fails-IsSafe too_many_bytes x v)
            | inr fits ↦ rw fits (after_open-IsSafe entry entry.open_error x valid goes v)
          ]

later :
    (dst : List Text) (max_bytes a b : ℕ) (x : Extraction)
    → a ≤ b
    → IsSafe dst max_bytes a x
    → IsSafe dst max_bytes b x
later dst max_bytes a b x le v = record {
  harmless = v.harmless;
  in_budget = v.in_budget;
  counted = v.counted;
  few = omega (arith, v.few);
}

extract_entries-IsSafe :
    (dst : List Text) (max_bytes count : ℕ) (entries : List ZipEntry) (x : Extraction)
    → IsSafe dst max_bytes count x
    → IsSafe dst max_bytes (count + length entries) (extract_entries dst max_bytes entries x)
unfolding extract_entries
extract_entries-IsSafe dst max_bytes count [] x v =
    later dst max_bytes count (count + 0) x (omega arith) v
extract_entries-IsSafe dst max_bytes count (entry ∷ entries) x v =
    elim (Bool-cases (stopped x.error)) [
      | inl done ↦
          rw done (later dst max_bytes count (count + suc (length entries)) x (omega arith) v)
      | inr goes ↦ rw goes (
          later dst max_bytes (suc count + length entries) (count + suc (length entries))
            (extract_entries dst max_bytes entries (extract_entry dst max_bytes entry x))
            (omega arith)
            (extract_entries-IsSafe dst max_bytes (suc count) entries
              (extract_entry dst max_bytes entry x)
              (extract_entry-IsSafe dst max_bytes count entry x goes v)))
    ]

nothing_yet :
    (dst : List Text) (max_bytes : ℕ) (o : Option ExtractError)
    → IsSafe dst max_bytes 0 (record { files = []; extracted_bytes = 0; error = o })
nothing_yet dst max_bytes o = record {
  harmless = tt;
  in_budget = omega arith;
  counted = λ h. refl;
  few = omega arith;
}

-- Whatever an archive declares and contains, and whatever the file system answers, also where the
-- extraction fails: the files that extractZip leaves lie strictly below its directory, have
-- permissions between 1 and 0755, are no more than the limit of files, and hold together no more
-- than the limit of bytes.
pub extract_zip-IsSafe :
    (dst : List Text) (max_bytes max_files : ℕ) (entries : List ZipEntry)
    → IsSafe dst max_bytes max_files (extract_zip dst max_bytes max_files entries)
unfolding extract_zip
extract_zip-IsSafe dst max_bytes max_files entries =
    elim (Bool-cases (ltb max_files (length entries))) [
      | inl many ↦ rw many (
          later dst max_bytes 0 max_files
            (record { files = []; extracted_bytes = 0; error = some too_many_files }) (omega arith)
            (nothing_yet dst max_bytes (some too_many_files)))
      | inr few ↦ rw few (
          later dst max_bytes (0 + length entries) max_files
            (extract_entries dst max_bytes entries
              (record { files = []; extracted_bytes = 0; error = none }))
            (ground (arith, few))
            (extract_entries-IsSafe dst max_bytes 0 entries
              (record { files = []; extracted_bytes = 0; error = none })
              (nothing_yet dst max_bytes none)))
    ]
