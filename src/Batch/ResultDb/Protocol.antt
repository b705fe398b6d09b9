-- ===== src/Batch/ResultDb/Protocol.antt =====
-- internal/buildbatch/lmdb_store_linux.go: what every operation holds of LMDB while it runs, and
-- when it returns.
use buildkit_service.Prelude.{
  ℕ, Bool, true, false, not, ◌&&◌, Option, none, some, List, [], ◌∷◌, ◌++◌, Text, if◌then◌else◌,
  Result, ok, err,
}
use buildkit_service.Batch.Counters.{ResultEntry}
use buildkit_service.Batch.ResultDb.{
  Call, env_create, env_close, set_maxdbs, set_mapsize, env_open, env_sync, txn_begin, txn_commit,
  txn_abort, dbi_open, dbi_close, mdb_put, mdb_get, cursor_open, cursor_get, cursor_close, Calls,
  OpenAnswers, open_lmdb_result_db, Stored, Json, PutAnswers, put, GetAnswers, get, ScanAnswers,
  all_entries, sync, close_db,
}

-- Whether there is an environment, whether it was given a number of databases and is opened, and
-- the transaction, the database handle and the cursor that are open.
pub record Held : Type 0 where
  pub env : Bool
  pub sized : Bool
  pub opened : Bool
  pub txn : Bool
  pub dbi : Bool
  pub cursor : Bool

abbrev pub nothing : Held
nothing = record {
  env = false;
  sized = false;
  opened = false;
  txn = false;
  dbi = false;
  cursor = false;
}

abbrev pub held_if : Bool → Held → Option Held
held_if true h = some h
held_if false h = none

-- LMDB's rules: an environment is made once, and is given its sizes before it is opened. Only an
-- opened one is synchronised or has transactions, one at a time; the commit of a transaction ends
-- it also where it fails. A named database is opened in a transaction of an environment that has a
-- number of databases; values and cursors need a transaction and a database, and a cursor is closed
-- before its transaction ends. A database is closed outside of transactions; no transaction and no
-- cursor is open when the environment is closed, and that leaves nothing, no database either.
abbrev pub use_call : Call → Bool → Held → Option Held
use_call env_create good h = held_if (not h.env) (if good then record h { env = true } else h)
use_call env_close good h = held_if (h.env && not h.txn && not h.cursor) nothing
use_call set_maxdbs good h =
    held_if (h.env && not h.opened) (if good then record h { sized = true } else h)
use_call set_mapsize good h = held_if (h.env && not h.opened) h
use_call env_open good h =
    held_if (h.env && not h.opened) (if good then record h { opened = true } else h)
use_call env_sync good h = held_if h.opened h
use_call txn_begin good h =
    held_if (h.opened && not h.txn) (if good then record h { txn = true } else h)
use_call txn_commit good h = held_if (h.txn && not h.cursor) (record h { txn = false })
use_call txn_abort good h = held_if (h.txn && not h.cursor) (record h { txn = false })
use_call dbi_open good h = held_if (h.txn && h.sized) (if good then record h { dbi = true } else h)
use_call dbi_close good h = held_if (h.dbi && not h.txn) (record h { dbi = false })
use_call mdb_put good h = held_if (h.txn && h.dbi) h
use_call mdb_get good h = held_if (h.txn && h.dbi) h
use_call cursor_open good h =
    held_if (h.txn && h.dbi && not h.cursor) (if good then record h { cursor = true } else h)
use_call cursor_get good h = held_if h.cursor h
use_call cursor_close good h = held_if h.cursor (record h { cursor = false })

abbrev pub then_uses : (Held → Option Held) → Option Held → Option Held
then_uses f none = none
then_uses f (some h) = f h

-- `none` is a breach of the rules.
unfoldable pub uses : Calls → Held → Option Held
uses [] h = some h
uses ((call, good) ∷ calls) h = then_uses (uses calls) (use_call call good h)

-- An open database between two operations, and within a scan.
abbrev pub only_env : Held
only_env = record {
  env = true;
  sized = true;
  opened = true;
  txn = false;
  dbi = true;
  cursor = false;
}

abbrev pub reading : Held
reading = record only_env { txn = true; cursor = true }

-- openLMDBResultDB leaves the environment open exactly if it returns no error, and no transaction.
abbrev pub opened_by : Result Text (Unit {0}) → Held
opened_by (ok _) = only_env
opened_by (err e) = nothing

-- What is done with an open database, with LMDB's answers; a scan meets the values that it is given.
pub data Operation : Type 0 where
  puts : PutAnswers → ResultEntry → Operation
  gets : GetAnswers → Text → Operation
  scans : ScanAnswers → List (ℕ × Text) → Operation
  syncs : ℕ → Operation

abbrev pub operate : Json → Operation → Stored → Calls × Stored
operate json (puts a entry) db = ((put json a entry db).0, (put json a entry db).1.0)
operate json (gets a target) db = ((get json a target db).0, db)
operate json (scans a values) db = ((all_entries json a values).0, db)
operate json (syncs rc) db = ((sync rc false).0, db)

-- The calls of some operations, and of the close after them.
unfoldable pub operate_all : Json → List Operation → Stored → Calls
unfolding close_db
operate_all json [] db = (close_db false).0
operate_all json (x ∷ xs) db = (operate json x db).0 ++ operate_all json xs (operate json x db).1

-- A whole session: where the open fails, there is no database to use or to close.
abbrev pub after_opened : Json → List Operation → Stored → Calls → Result Text (Unit {0}) → Calls
after_opened json xs db calls (err e) = calls
after_opened json xs db calls (ok _) = calls ++ operate_all json xs db

unfoldable pub session : Json → OpenAnswers → List Operation → Stored → Calls
unfolding operate_all open_lmdb_result_db
session json a xs db = after_opened json xs db (open_lmdb_result_db a).0 (open_lmdb_result_db a).1
