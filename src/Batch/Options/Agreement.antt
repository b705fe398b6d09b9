-- ===== src/Batch/Options/Agreement.antt =====
-- internal/buildbatch/daemon_options.go, config.go: a query that sets nothing.
use buildkit_service.Prelude.{◌≡◌, [], Text}
use buildkit_service.Batch.Options.{default_config, build_options_from_query, run_options}
use buildkit_service.Batch.Queries.{Libraries}

-- An empty query gives the options that Run gives for the default configuration with the addresses
-- and the paths of the daemon, and fails as that does.
pub build_options_from_query-empty :
    (lib : Libraries) (default_addrs result_db logs_file : Text)
    → build_options_from_query lib [] default_addrs result_db logs_file
      ≡ run_options lib (record default_config {
        addrs = default_addrs;
        result_path = result_db;
        logs_path = logs_file;
      })
unfolding build_options_from_query run_options
build_options_from_query-empty lib default_addrs result_db logs_file = cc
