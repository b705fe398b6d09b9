-- ===== src/Tests/Queries.antt =====
-- The options of a query: internal/buildbatch/daemon_options.go.
use buildkit_service.Prelude.{◌≡◌, refl, none, some, [], ◌∷◌, ◌++◌, text, pos, negsuc, ok}
use buildkit_service.Batch.Options.{
  build_options_from_query, default_config, run_options, parse_build_variables,
}
use buildkit_service.Batch.Queries.{Query, Libraries}
use buildkit_service.Batch.Options.Validity.{Holds, IsValid, build_options_from_query-Holds}
use buildkit_service.Batch.Options.Agreement.{build_options_from_query-empty}

abbrev libraries : Libraries
libraries = record {
  net = record {
    split_host_port = λ s. none;
    parse_ip = λ s. none;
    lookup_host = λ s. none;
    join_host_port = λ ip port. ip ++ port;
  };
  atoi = λ s. some (pos 3);
  parse_duration = λ s. some (negsuc 0);
}

abbrev query : Query
query =
    (text "var", text "BUILDCTL_BATCH_A=b=c" ∷ text " BUILDCTL_BATCH_B =" ∷ [])
    ∷ (text "retry", text "3" ∷ [])
    ∷ (text "oci", text " YES " ∷ [])
    ∷ []

variables :
    parse_build_variables (text "BUILDCTL_BATCH_A=b=c" ∷ text " BUILDCTL_BATCH_B =" ∷ [])
    ≡ ok ((text "BUILDCTL_BATCH_A", text "b=c") ∷ (text "BUILDCTL_BATCH_B", []) ∷ [])
unfolding parse_build_variables
variables = refl

build_options_from_query-Holds_example :
    Holds (IsValid query) (build_options_from_query libraries query (text "w1:1") [] [])
build_options_from_query-Holds_example =
    build_options_from_query-Holds libraries query (text "w1:1") [] []

build_options_from_query-empty_example :
    build_options_from_query libraries [] (text "w1:1") (text "r") (text "l")
    ≡ run_options libraries (record default_config {
      addrs = text "w1:1";
      result_path = text "r";
      logs_path = text "l";
    })
build_options_from_query-empty_example =
    build_options_from_query-empty libraries (text "w1:1") (text "r") (text "l")
