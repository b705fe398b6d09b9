-- ===== src/Daemon/Workspace.antt =====
-- internal/builddaemon/workspace.go: uploads, logs and the context of a build. What a
-- file or a reader holds is a list of bytes; the errors of the file system are inputs.
use buildkit_service.Prelude.{
  ℕ, ◌-◌, Bool, true, false, not, ◌&&◌, ◌||◌, Option, none, some, List, [], ◌∷◌, ◌++◌, Text, text,
  text_eq, text_ltb, trim_space, starts_with, sort_by, utf8_all, length, take, drop, ltb, leb,
  nat_eq, if◌then◌else◌, Result, ok, err, ◌>>=◌,
}

-- A reader: its bytes, and the error that it ends with in place of io.EOF.
pub record Source : Type 0 where
  pub bytes : List ℕ
  pub failure : Option Text

abbrev pub or_error : Option Text → List ℕ × Bool → Result Text (List ℕ × Bool)
or_error none r = ok r
or_error (some e) r = err e

-- The bytes that were copied before an error, as the destination then has them.
abbrev pub copied : ℕ → Source → List ℕ
copied limit src = take limit src.bytes

-- copyWithLimit, with the error of the destination: what was written, and whether there was more.
-- The reader is asked for the end of its bytes only where the limit leaves room or is just met.
unfoldable pub copy_with_limit : Option Text → ℕ → Source → Result Text (List ℕ × Bool)
copy_with_limit (some e) limit src = err e
copy_with_limit none limit src =
    if ltb limit (length src.bytes)
    then ok (copied limit src, true)
    else or_error src.failure (copied limit src, false)

pub data SaveError : Type 0 where
  archive_limit : Text → SaveError
  other_error : Text → SaveError

abbrev pub on_copied : Result Text (List ℕ × Bool) → Result SaveError (List ℕ)
on_copied (err e) = err (other_error (text "save upload: " ++ e))
on_copied (ok (bytes, true)) = err (archive_limit (text "compressed upload"))
on_copied (ok (bytes, false)) = ok bytes

-- After the declared size: the first error of opening the upload and the file, or the copy.
abbrev pub save_copied : Option Text → Source → Option Text → ℕ → Result SaveError (List ℕ)
save_copied (some e) src dst_error max_bytes = err (other_error e)
save_copied none src dst_error max_bytes = on_copied (copy_with_limit dst_error max_bytes src)

-- saveUploadedFile: the size that the request declares, then the bytes.
unfoldable pub save_uploaded_file :
    ℕ → Option Text → Source → Option Text → ℕ → Result SaveError (List ℕ)
unfolding copy_with_limit
save_uploaded_file declared open_error src dst_error max_bytes =
    if ltb max_bytes declared
    then err (archive_limit (text "compressed upload"))
    else save_copied open_error src dst_error max_bytes

-- limitedLogWriter over a writer that keeps what it accepts.
pub record LimitedLogWriter : Type 0 where
  pub output : List ℕ
  pub remaining : ℕ

-- Write: how many bytes of its argument the inner writer takes, and its error, are the answer; the
-- result is the count and the error that Write returns.
abbrev pub answer_count : ℕ → Option Text → ℕ → ℕ → ℕ × Option Text
answer_count count (some e) whole original = (count, some e)
answer_count count none whole original =
    if not (nat_eq count whole) then (count, some (text "short write")) else (original, none)

unfoldable pub write_limited :
    (List ℕ → ℕ × Option Text) → List ℕ → LimitedLogWriter → LimitedLogWriter × (ℕ × Option Text)
write_limited inner bytes w =
    let chunk = if ltb w.remaining (length bytes) then take w.remaining bytes else bytes in
    let count = (inner chunk).0 in
    if nat_eq w.remaining 0 || nat_eq (length bytes) 0 then (w, (length bytes, none)) else (
      record { output = w.output ++ take count chunk; remaining = w.remaining - count },
      answer_count count (inner chunk).1 (length chunk) (length bytes),
    )

-- An entry of a directory, and whether it has a file named Dockerfile.
pub record DirEntry : Type 0 where
  pub name : Text
  pub is_dir : Bool
  pub has_dockerfile : Bool

-- The directories of the root that have a Dockerfile are the candidates.
unfoldable pub candidates : Text → List DirEntry → List Text
candidates root [] = []
candidates root (entry ∷ entries) =
    let rest = candidates root entries in
    if entry.is_dir && entry.has_dockerfile then (root ++ (text "/" ++ entry.name)) ∷ rest else rest

abbrev pub only_candidate : List Text → Result Text Text
only_candidate [] = err (text "zip must contain Dockerfile at root or in one top-level directory")
only_candidate (c ∷ []) = ok c
only_candidate (c ∷ d ∷ cs) =
    err (text "zip must contain Dockerfile at root or in one top-level directory")

unfoldable pub find_build_context : Text → Bool → Result Text (List DirEntry) → Result Text Text
unfolding candidates
find_build_context root root_has entries =
    if root_has then ok root else (entries >>= λ es. only_candidate (candidates root es))

-- What os.ReadFile gives.
pub data FileRead : Type 0 where
  missing : FileRead
  unreadable : Text → FileRead
  content : Text → FileRead

-- readImageMetadata, with the JSON decoder that gives the target.
unfoldable pub read_image_metadata : (Text → Result Text Text) → FileRead → Result Text Text
read_image_metadata decode missing = err (text "image is required when metadata.json is missing")
read_image_metadata decode (unreadable e) = err (text "read metadata.json: " ++ e)
read_image_metadata decode (content raw) = decode raw

abbrev pub image_of_metadata : Text → Result Text Text
image_of_metadata target =
    if text_eq (trim_space target) []
    then err (text "image is required when metadata.json target is empty")
    else ok (trim_space target)

unfoldable pub resolve_build_image : (Text → Result Text Text) → FileRead → Text → Result Text Text
unfolding trim_space text_eq read_image_metadata
resolve_build_image decode file image_override =
    if not (text_eq (trim_space image_override) [])
    then ok (trim_space image_override)
    else read_image_metadata decode file >>= image_of_metadata

-- The bytes that sourceContextContentHash hashes: the regular files by their relative path.
pub record ContextFile : Type 0 where
  pub rel : Text
  pub bytes : List ℕ

abbrev pub rel_before : ContextFile → ContextFile → Bool
rel_before a b = text_ltb a.rel b.rel

unfoldable pub hash_input : List ContextFile → List ℕ
unfolding utf8_all
hash_input [] = []
hash_input (f ∷ files) = utf8_all f.rel ++ (0 ∷ (f.bytes ++ (0 ∷ hash_input files)))

unfoldable pub source_context_content_hash : (List ℕ → Text) → List ContextFile → Text
unfolding hash_input sort_by text_ltb
source_context_content_hash hex_sum files =
    text "source:" ++ hex_sum (hash_input (sort_by rel_before files))

-- A key is ASCII where it is cut: `source:` and a hexadecimal sum.
unfoldable pub short_schedule_key : Text → Text
unfolding starts_with
short_schedule_key key =
    if leb (length key) 19 || not (starts_with (text "source:") key) then key else take 19 key

-- The file from where tailFile seeks to.
abbrev pub tail_from : ℕ → List ℕ → List ℕ
tail_from limit bytes = drop (if ltb limit (length bytes) then length bytes - limit else 0) bytes

-- tailFile, where 0 is also a limit below 0: a missing file is an empty one; an error is the first of its calls.
unfoldable pub tail_file : ℕ → ℕ → Result Text (Option (List ℕ)) → Result Text (List ℕ)
tail_file default_max max_bytes (err e) = err e
tail_file default_max max_bytes (ok none) = ok []
tail_file default_max max_bytes (ok (some bytes)) =
    ok (tail_from (if nat_eq max_bytes 0 then default_max else max_bytes) bytes)
