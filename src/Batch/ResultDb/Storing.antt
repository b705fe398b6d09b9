-- ===== src/Batch/ResultDb/Storing.antt =====
-- internal/buildbatch/lmdb_store_linux.go: an entry that was put is the one that is read.
use buildkit_service.Prelude.{
  ◌≡◌, refl, ◌&&◌, Option, some, Text, eq_text, text_eq, lookup-insert, nat_eq, if◌then◌else◌,
  Result, ok, err, inl, inr, Result-cases, arith,
}
use buildkit_service.Batch.Counters.{ResultEntry}
use buildkit_service.Batch.ResultDb.{Stored, Json, PutAnswers, put, GetAnswers, get}

-- After a put that returned no error, a read of its target that LMDB does not fail gives the entry,
-- where the library decodes what it encoded; a read of another target, or any read after a put
-- that returned an error, gives what it gave before.
pub get-put :
    (json : Json) (a : PutAnswers) (b : GetAnswers) (entry : ResultEntry) (target : Text)
    (db : Stored)
    → ((payload : Text) → json.marshal entry ≡ ok payload → json.unmarshal payload ≡ ok entry)
    → (get json b target (put json a entry db).1.0).1
      ≡ elim (put json a entry db).1.1 as (λ _. Result Text (Option ResultEntry)) [
        | err e ↦ (get json b target db).1
        | ok _ ↦
            if text_eq entry.target target && nat_eq b.begun 0 && nat_eq b.get_failure 0
            then ok (some entry)
            else (get json b target db).1
      ]
unfolding put get
get-put json a b entry target db law = elim (Result-cases (json.marshal entry)) [
  | inr (e, f) ↦ rw f refl
  | inl (payload, f) ↦
      ground (arith, f, law payload f, lookup-insert entry.target target payload db)
]
