-- ===== src/Tests/Databases.antt =====
-- The database of results: internal/buildbatch/lmdb_store_linux.go.
use buildkit_service.Prelude.{◌≡◌, true, none, some, List, [], ◌∷◌, Text, text, ok}
use buildkit_service.Batch.Counters.{ResultEntry}
use buildkit_service.Batch.ResultDb.{Json, OpenAnswers, PutAnswers, put, get}
use buildkit_service.Batch.ResultDb.Protocol.{Operation, puts, gets, scans, syncs}
use buildkit_service.Batch.ResultDb.Storing.{get-put}

abbrev entry_of : Text → ResultEntry
entry_of target = record {
  started_at = [];
  finished_at = [];
  elapsed = [];
  target = target;
  node_ip = [];
  success = true;
  logs = [];
  reason = [];
}

-- Entries that are encoded as their target.
abbrev targets_only : Json
targets_only = record {
  marshal = λ entry. ok entry.target;
  unmarshal = λ payload. ok (entry_of payload);
}

abbrev opens : OpenAnswers
opens = record {
  mkdir_error = none;
  create = 0;
  maxdbs = 0;
  mapsize = 0;
  opened = 0;
  begun = 0;
  dbi = 0;
  committed = 0;
}

abbrev puts_well : PutAnswers
puts_well = record { begun = 0; put_code = 0; committed = 0 }

-- A put that fails, a read, a scan whose second value cannot be read, and a sync.
abbrev operations : List Operation
operations =
    puts (record puts_well { put_code = 5 }) (entry_of (text "app"))
    ∷ gets (record { begun = 0; get_failure = 0 }) (text "app")
    ∷ scans (record { begun = 0; cursor = 0 }) ((0, text "a") ∷ (7, text "b") ∷ [])
    ∷ syncs 0
    ∷ []

get-put_example :
    (get targets_only
      (record { begun = 0; get_failure = 0 })
      (text "app")
      (put targets_only puts_well (entry_of (text "app")) []).1.0).1
    ≡ ok (some (entry_of (text "app")))
unfolding put
get-put_example =
    get-put targets_only puts_well (record { begun = 0; get_failure = 0 }) (entry_of (text "app"))
      (text "app") [] (λ payload e. cc)
