-- ===== src/Batch/ResultDb.antt =====
-- internal/buildbatch/lmdb_store_linux.go: the database of results over LMDB. Each operation takes
-- what LMDB answers, a return code to each call, and gives the calls that it makes, in their order
-- and with their success, and its result. The names of errors stand for their texts.
pub mod Protocol
pub mod Storing
use buildkit_service.Prelude.{
  ℕ, zero, suc, ◌+◌, Bool, true, false, not, ◌&&◌, Option, none, some, List, [], ◌∷◌, ◌++◌, Map,
  Text, text, eq_text, text_eq, lookup, insert, nat_eq, if◌then◌else◌, Result, ok, err, ◌>>=◌,
}
use buildkit_service.Batch.Counters.{ResultEntry}

pub data Call : Type 0 where
  env_create env_close set_maxdbs set_mapsize env_open env_sync : Call
  txn_begin txn_commit txn_abort : Call
  dbi_open dbi_close : Call
  mdb_put mdb_get : Call
  cursor_open cursor_get cursor_close : Call

-- Calls with whether they succeeded.
abbrev pub Calls : Type 0
Calls = List (Call × Bool)

-- A call, and what follows it by its return code.
abbrev pub check {ℓ} : {A : Type ℓ} → Call → ℕ → Calls × A → Calls × A → Calls × A
check call rc (failure, a) (next, b) =
    if nat_eq rc 0 then ((call, true) ∷ next, b) else ((call, false) ∷ failure, a)

abbrev pub ends {ℓ} : {A : Type ℓ} → Calls → Text → Calls × Result Text A
ends calls e = (calls, err e)

-- Calls whose return code the source does not read.
abbrev pub aborted : Calls
aborted = (txn_abort, true) ∷ []

abbrev pub env_closed : Calls
env_closed = (env_close, true) ∷ []

-- The return codes of openLMDBResultDB, and the error of os.MkdirAll.
pub record OpenAnswers : Type 0 where
  pub mkdir_error : Option Text
  pub create : ℕ
  pub maxdbs : ℕ
  pub mapsize : ℕ
  pub opened : ℕ
  pub begun : ℕ
  pub dbi : ℕ
  pub committed : ℕ

abbrev pub open_after_mkdir : OpenAnswers → Calls × Result Text (Unit {0})
open_after_mkdir a = check env_create a.create (ends [] (text "create environment")) (
    check set_maxdbs a.maxdbs (ends env_closed (text "set max dbs")) (
      check set_mapsize a.mapsize (ends env_closed (text "set map size")) (
        check env_open a.opened (ends env_closed (text "open environment")) (
          check txn_begin a.begun (ends env_closed (text "begin open transaction")) (
            check dbi_open a.dbi (ends ((txn_abort, true) ∷ env_closed) (text "open database")) (
              check txn_commit a.committed (ends env_closed (text "commit open transaction"))
                ([], ok tt)))))))

abbrev pub open_by_mkdir : OpenAnswers → Option Text → Calls × Result Text (Unit {0})
open_by_mkdir a (some e) = ends [] e
open_by_mkdir a none = open_after_mkdir a

unfoldable pub open_lmdb_result_db : OpenAnswers → Calls × Result Text (Unit {0})
open_lmdb_result_db a = open_by_mkdir a a.mkdir_error

-- The entries by their target, as the database stores them, and the JSON library.
abbrev pub Stored : Type 0
Stored = Map Text Text

pub record Json : Type 0 where
  pub marshal : ResultEntry → Result Text Text
  pub unmarshal : Text → Result Text ResultEntry

pub record PutAnswers : Type 0 where
  pub begun : ℕ
  pub put_code : ℕ
  pub committed : ℕ

-- A committed transaction has its put; another leaves the database as it was.
abbrev pub put_payload :
    PutAnswers → Text → Text → Stored → Calls × (Stored × Result Text (Unit {0}))
put_payload a target payload db =
    check txn_begin a.begun ([], (db, err (text "begin write transaction")))
      (check mdb_put a.put_code (aborted, (db, err (text "put entry")))
        (check txn_commit a.committed ([], (db, err (text "commit write transaction")))
          ([], (insert target payload db, ok tt))))

abbrev pub put_marshalled :
    PutAnswers → Text → Stored → Result Text Text → Calls × (Stored × Result Text (Unit {0}))
put_marshalled a target db (err e) = ([], (db, err e))
put_marshalled a target db (ok payload) = put_payload a target payload db

-- The writer's mutex makes it one step.
unfoldable pub put :
    Json → PutAnswers → ResultEntry → Stored → Calls × (Stored × Result Text (Unit {0}))
unfolding insert text_eq
put json a entry db = put_marshalled a entry.target db (json.marshal entry)

-- A read: the return codes of mdb_txn_begin, and of mdb_get where it is another than success or
-- MDB_NOTFOUND.
pub record GetAnswers : Type 0 where
  pub begun : ℕ
  pub get_failure : ℕ

abbrev pub decode_entry : Json → Text → Result Text (Option ResultEntry)
decode_entry json payload = json.unmarshal payload >>= λ entry. ok (some entry)

abbrev pub found_entry : Json → Option Text → Result Text (Option ResultEntry)
found_entry json none = ok none
found_entry json (some payload) = decode_entry json payload

-- The deferred abort ends the transaction on every path.
unfoldable pub get : Json → GetAnswers → Text → Stored → Calls × Result Text (Option ResultEntry)
unfolding lookup text_eq
get json a target db =
    check txn_begin a.begun ([], err (text "begin read transaction"))
      (
        (mdb_get, nat_eq a.get_failure 0) ∷ aborted,
        if nat_eq a.get_failure 0
            then found_entry json (lookup target db)
            else err (text "get entry"),
      )

-- The loop of All: the values from the cursor on, each with the return code of its mdb_cursor_get;
-- the last call meets MDB_NOTFOUND.
abbrev pub add_entry :
    ResultEntry → Calls × Result Text (List ResultEntry) → Calls × Result Text (List ResultEntry)
add_entry entry (calls, ok entries) = ((cursor_get, true) ∷ calls, ok (entry ∷ entries))
add_entry entry (calls, err e) = ((cursor_get, true) ∷ calls, err e)

abbrev pub after_decode :
    Result Text ResultEntry
    → Calls × Result Text (List ResultEntry)
    → Calls × Result Text (List ResultEntry)
after_decode (err e) rest = ((cursor_get, true) ∷ [], err e)
after_decode (ok entry) rest = add_entry entry rest

unfoldable pub scan : Json → List (ℕ × Text) → Calls × Result Text (List ResultEntry)
scan json [] = ((cursor_get, false) ∷ [], ok [])
scan json ((rc, payload) ∷ values) =
    let rest = after_decode (json.unmarshal payload) (scan json values) in
    if nat_eq rc 0 then rest else ((cursor_get, false) ∷ [], err (text "iterate cursor"))

pub record ScanAnswers : Type 0 where
  pub begun : ℕ
  pub cursor : ℕ

-- The deferred calls: the cursor is closed before the transaction is aborted.
unfoldable pub all_entries :
    Json → ScanAnswers → List (ℕ × Text) → Calls × Result Text (List ResultEntry)
unfolding scan
all_entries json a values =
    check txn_begin a.begun ([], err (text "begin scan transaction"))
      (check cursor_open a.cursor (aborted, err (text "open cursor"))
        ((scan json values).0 ++ ((cursor_close, true) ∷ aborted), (scan json values).1))

-- Sync and Close of a database that is not nil, with the flag `closed`.
unfoldable pub sync : ℕ → Bool → Calls × Result Text (Unit {0})
sync rc closed =
    if closed
    then ([], ok tt)
    else check env_sync rc ([], err (text "sync environment")) ([], ok tt)

unfoldable pub close_db : Bool → Calls × Bool
close_db closed = if closed then ([], true) else ((dbi_close, true) ∷ env_closed, true)
