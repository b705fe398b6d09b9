-- ===== src/Daemon/Archive.antt =====
-- internal/builddaemon/workspace.go: archives and their extraction. The errors of the file system
-- are inputs.
pub mod Paths
pub mod Unpacking
use buildkit_service.Prelude.{
  ℕ, zero, suc, ◌+◌, ◌-◌, Bool, true, false, not, ◌&&◌, ◌||◌, Option, none, some, List, [], ◌∷◌,
  ◌++◌, Text, text, text_eq, text_ltb, trim_space, starts_with, split, sort_by, utf8_all, length,
  take, drop, ltb, leb, nat_eq, if◌then◌else◌, Result, ok, err, ◌>>=◌,
}
use buildkit_service.Daemon.Workspace.{Source, copied, copy_with_limit}

-- filepath.Clean of a path that is not rooted, by its parts: how many `..` it starts with, and the
-- parts after them, last first. The empty path is both zero and empty.
abbrev pub clean_up : ℕ → List Text → ℕ × List Text
clean_up ups [] = (suc ups, [])
clean_up ups (part ∷ parts) = (ups, parts)

abbrev pub clean_part : ℕ → List Text → Text → ℕ × List Text
clean_part ups parts part =
    if text_eq part [] || text_eq part (text ".")
    then (ups, parts)
    else if text_eq part (text "..")
    then clean_up ups parts
    else (ups, part ∷ parts)

unfoldable pub clean_from : ℕ × List Text → List Text → ℕ × List Text
unfolding text_eq
clean_from (ups, parts) [] = (ups, parts)
clean_from (ups, parts) (part ∷ rest) = clean_from (clean_part ups parts part) rest

unfoldable pub clean : Text → ℕ × List Text
unfolding clean_from split
clean name = clean_from (0, []) (split 47 name)

abbrev pub is_none : ℕ × List Text → Bool
is_none (zero, []) = true
is_none _ = false

-- validateBuildArchivePath: the path is not empty nor rooted, and when clean it is not `.`, `..` or
-- below `..`.
unfoldable pub validate_build_archive_path : Text → Bool
unfolding clean text_eq starts_with
validate_build_archive_path name =
    not (text_eq name [] || starts_with (text "/") name)
    && not (is_none (clean name) || ltb 0 (clean name).0)

-- filepath.Join of a directory, which is rooted and clean, with a path: the parts, last first. A
-- `..` at the root is dropped.
abbrev pub tail_parts : List Text → List Text
tail_parts [] = []
tail_parts (part ∷ parts) = parts

unfoldable pub join_from : List Text → List Text → List Text
unfolding text_eq
join_from parts [] = parts
join_from parts (part ∷ rest) =
    join_from
      (if text_eq part [] || text_eq part (text ".")
        then parts
        else if text_eq part (text "..")
        then tail_parts parts
        else part ∷ parts)
      rest

unfoldable pub join : List Text → Text → List Text
unfolding join_from split
join dst name = join_from dst (split 47 name)

-- An entry of an archive: what its header says, its content, the first error of the file system
-- before the copy, in the copy and at the close, how much is written before one in the copy, and
-- whether the file can be removed.
pub record ZipEntry : Type 0 where
  pub name : Text
  pub is_dir : Bool
  pub mode : ℕ
  pub uncompressed_size : ℕ
  pub content : Source
  pub open_error : Option Text
  pub partial : ℕ
  pub write_error : Option Text
  pub close_error : Option Text
  pub removable : Bool

pub record ExtractedFile : Type 0 where
  pub path : List Text
  pub mode : ℕ
  pub bytes : List ℕ

abbrev pub zip_max_extracted_file_mode : ℕ
zip_max_extracted_file_mode = 493

abbrev pub file_mode : ℕ → ℕ
file_mode mode = if nat_eq mode 0 || ltb zip_max_extracted_file_mode mode then 420 else mode

pub data ExtractError : Type 0 where
  invalid_path : Text → ExtractError
  too_many_files : ExtractError
  too_many_bytes : ExtractError
  file_error : Text → ExtractError

-- The files that were written, of which a later one replaces an earlier one of its path, what the
-- loop counts, and its error.
pub record Extraction : Type 0 where
  pub files : List ExtractedFile
  pub extracted_bytes : ℕ
  pub error : Option ExtractError

abbrev pub fails : ExtractError → Extraction → Extraction
fails e x = record x { error = some e }

abbrev pub put_file : List Text → ZipEntry → List ℕ → Extraction → Extraction
put_file target entry bytes x = record x {
  files = x.files ++ record { path = target; mode = file_mode entry.mode; bytes = bytes } ∷ [];
}

abbrev pub after_close : Option Text → Extraction → Extraction
after_close none x = x
after_close (some e) x = fails (file_error e) x

-- A content that is too long is removed, or its part stays where os.Remove fails.
abbrev pub after_remove : List Text → ZipEntry → List ℕ → Bool → Extraction → Extraction
after_remove target entry bytes true x = fails too_many_bytes x
after_remove target entry bytes false x = fails too_many_bytes (put_file target entry bytes x)

-- After copyWithLimit: an error leaves a part of what is to be copied.
abbrev pub after_copy :
    List Text → ZipEntry → ℕ → Result Text (List ℕ × Bool) → Extraction → Extraction
after_copy target entry remaining (err e) x =
    fails (file_error e)
      (put_file target entry (take entry.partial (copied remaining entry.content)) x)
after_copy target entry remaining (ok (bytes, true)) x =
    after_remove target entry bytes entry.removable x
after_copy target entry remaining (ok (bytes, false)) x =
    let stored = put_file target entry bytes x in
    after_close entry.close_error
      (record stored { extracted_bytes = stored.extracted_bytes + length bytes })

abbrev pub after_open : List Text → ZipEntry → ℕ → Option Text → Extraction → Extraction
after_open target entry remaining (some e) x = fails (file_error e) x
after_open target entry remaining none x =
    after_copy target entry remaining (copy_with_limit entry.write_error remaining entry.content) x

abbrev pub after_mkdir : Option Text → Extraction → Extraction
after_mkdir none x = x
after_mkdir (some e) x = fails (file_error e) x

-- The body of the loop over the entries. `remaining` is not negative: a file that is copied has at
-- most the bytes that remain.
unfoldable pub extract_entry : List Text → ℕ → ZipEntry → Extraction → Extraction
unfolding validate_build_archive_path join copy_with_limit
extract_entry dst max_bytes entry x =
    if not (validate_build_archive_path entry.name)
    then fails (invalid_path entry.name) x
    else if entry.is_dir
    then after_mkdir entry.open_error x
    else if ltb (max_bytes - x.extracted_bytes) entry.uncompressed_size
    then fails too_many_bytes x
    else after_open (join dst entry.name) entry (max_bytes - x.extracted_bytes) entry.open_error x

abbrev pub stopped : Option ExtractError → Bool
stopped none = false
stopped (some e) = true

unfoldable pub extract_entries : List Text → ℕ → List ZipEntry → Extraction → Extraction
unfolding extract_entry
extract_entries dst max_bytes [] x = x
extract_entries dst max_bytes (entry ∷ entries) x =
    let rest = extract_entries dst max_bytes entries (extract_entry dst max_bytes entry x) in
    if stopped x.error then x else rest

unfoldable pub extract_zip : List Text → ℕ → ℕ → List ZipEntry → Extraction
unfolding extract_entries
extract_zip dst max_bytes max_files entries =
    let empty : Extraction = record { files = []; extracted_bytes = 0; error = none } in
    if ltb max_files (length entries)
    then fails too_many_files empty
    else extract_entries dst max_bytes entries empty
