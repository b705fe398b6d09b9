-- ===== src/Daemon/Build.antt =====
-- internal/builddaemon/build.go: image types, the steps of a build, the classes of build errors and
-- the attributes of a solve.
use buildkit_service.Prelude.{
  Bool, false, not, ◌||◌, List, [], ◌∷◌, ◌++◌, Map, Text, text, text_eq, trim_space, trim_prefix,
  trim_suffix, ends_with, to_lower, has_part, has_one_of, trim_char, insert, eq_text, if◌then◌else◌,
  Result, ok, err,
}

abbrev pub nydus_v3_target_suffix : Text
nydus_v3_target_suffix = text "_nydus_v3"

abbrev pub image_type_nydus : Text
image_type_nydus = text "nydus"

abbrev pub image_type_oci : Text
image_type_oci = text "oci"

abbrev pub image_type_both : Text
image_type_both = text "both"

unfoldable pub has_nydus_v3_suffix : Text → Bool
unfolding trim_space ends_with
has_nydus_v3_suffix target = ends_with nydus_v3_target_suffix (trim_space target)

unfoldable pub ensure_nydus_v3_suffix : Text → Text
unfolding trim_space has_nydus_v3_suffix text_eq
ensure_nydus_v3_suffix target =
    let trimmed = trim_space target in
    if text_eq trimmed [] || has_nydus_v3_suffix trimmed
    then trimmed
    else trimmed ++ nydus_v3_target_suffix

unfoldable pub strip_nydus_v3_suffix : Text → Text
unfolding trim_space trim_suffix
strip_nydus_v3_suffix target = trim_suffix nydus_v3_target_suffix (trim_space target)

pub record BuildStep : Type 0 where
  pub image : Text
  pub format : Text
  pub base_image : Text
  pub context_dir : Text

unfoldable pub build_steps_for_image_type : Text → Text → List BuildStep
unfolding text_eq strip_nydus_v3_suffix ensure_nydus_v3_suffix
build_steps_for_image_type image image_type =
    let oci_image = strip_nydus_v3_suffix image in
    let oci : BuildStep = record {
      image = oci_image;
      format = image_type_oci;
      base_image = [];
      context_dir = [];
    } in
    if text_eq image_type image_type_oci
    then oci ∷ []
    else if text_eq image_type image_type_both
    then (oci
        ∷ record {
          image = ensure_nydus_v3_suffix oci_image;
          format = image_type_nydus;
          base_image = oci_image;
          context_dir = [];
        }
        ∷ [])
    else record {
      image = ensure_nydus_v3_suffix image;
      format = image_type_nydus;
      base_image = [];
      context_dir = [];
    }
      ∷ []

unfoldable pub parse_image_type : Text → Result Text Text
unfolding to_lower trim_space text_eq
parse_image_type raw =
    let t = to_lower (trim_space raw) in
    if text_eq t [] || text_eq t image_type_nydus
    then ok image_type_nydus
    else if text_eq t image_type_oci || text_eq t (text "gzip")
    then ok image_type_oci
    else if text_eq t image_type_both
    then ok image_type_both
    else err (text "image_type must be one of nydus, oci, both")

unfoldable pub error_mentions_buildkit_addr : Text → Text → Bool
unfolding to_lower trim_space text_eq trim_prefix trim_char has_part
error_mentions_buildkit_addr msg buildkit_addr =
    let addr = to_lower (trim_space buildkit_addr) in
    let host = trim_prefix (text "http://") (trim_prefix (text "tcp://") addr) in
    let host_port = trim_char 47 (trim_prefix (text "https://") host) in
    if text_eq addr [] || text_eq host_port [] then false else has_part host_port msg

abbrev pub dial_errors : List Text
dial_errors =
    text "connect: no route to host"
    ∷ text "connect: connection refused"
    ∷ text "failed to dial"
    ∷ text "i/o timeout"
    ∷ []

abbrev pub transport_errors : List Text
transport_errors =
    text "connection reset by peer"
    ∷ text "connection error"
    ∷ text "error reading server preface"
    ∷ text "transport is closing"
    ∷ text "unavailable"
    ∷ []

-- An error is its text, and it is not nil.
unfoldable pub is_retryable_buildkit_addr_error : Text → Text → Bool
unfolding to_lower has_one_of error_mentions_buildkit_addr
is_retryable_buildkit_addr_error e buildkit_addr =
    let msg = to_lower e in
    if has_one_of dial_errors msg
    then error_mentions_buildkit_addr msg buildkit_addr
    else has_one_of transport_errors msg

abbrev pub deterministic_errors : List Text
deterministic_errors =
    text "did not complete successfully: exit code:"
    ∷ text "dockerfile parse error"
    ∷ text "failed to parse dockerfile"
    ∷ text "syntax error"
    ∷ []

unfoldable pub is_deterministic_build_error : Text → Bool
unfolding to_lower has_one_of
is_deterministic_build_error e = has_one_of deterministic_errors (to_lower e)

unfoldable pub output_attrs : Text → Text → Map Text Text
unfolding text_eq
output_attrs image format =
    (text "name", image)
    ∷ (text "push", text "true")
    ∷ (text "force-compression", text "true")
    ∷ (text "oci-mediatypes", text "true")
    ∷ (if text_eq format image_type_oci
        then (text "compression", text "gzip") ∷ []
        else (text "compression", text "nydus") ∷ (text "fs-version", text "5") ∷ [])

add_build_args : Map Text Text → Map Text Text → Map Text Text
add_build_args [] attrs = attrs
add_build_args ((k, v) ∷ rest) attrs = add_build_args rest (insert (text "build-arg:" ++ k) v attrs)

unfoldable pub frontend_attrs : Text → Bool → Map Text Text → Map Text Text
unfolding trim_space text_eq add_build_args insert
frontend_attrs target no_cache build_args =
    let t = trim_space target in
    let targets = if not (text_eq t []) then (text "target", t) ∷ [] else [] in
    add_build_args build_args (if no_cache then insert (text "no-cache") [] targets else targets)
