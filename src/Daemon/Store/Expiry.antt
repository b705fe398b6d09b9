-- ===== src/Daemon/Store/Expiry.antt =====
-- What the reaper removes.
use buildkit_service.Prelude.{
  ℕ, ◌+◌, ◌≡◌, refl, inl, inr, Bool, false, Option, none, some, [], ◌∷◌, Text, lookup, erase,
  eq_text, text_eq_iff, lookup-erase, Unique, Bool-cases, if◌then◌else◌, arith, ltb,
}
use buildkit_service.Daemon.Task.{Task}
use buildkit_service.Daemon.Store.{Store, delete_expired, delete_expired_loop, is_expired}

abbrev stale : ℕ → ℕ → Option Task → Bool
stale now keep_ttl none = false
stale now keep_ttl (some t) = is_expired now keep_ttl t

lookup-loop :
    (now keep_ttl : ℕ) (j : Text) (es s : Store)
    → Unique es
    → lookup j (delete_expired_loop now keep_ttl es s).0
      ≡ (if stale now keep_ttl (lookup j es) then none else lookup j s)
unfolding delete_expired_loop lookup
lookup-loop now keep_ttl j [] s u = refl
lookup-loop now keep_ttl j ((id, t) ∷ es) s u = elim (Bool-cases (is_expired now keep_ttl t)) [
  | inl e ↦ rw e (
      ground (
        arith,
        lookup-loop now keep_ttl j es (erase id s) u.1,
        lookup-erase id j s,
        text_eq_iff id j,
      ))
  | inr e ↦ rw e (ground (arith, lookup-loop now keep_ttl j es s u.1, text_eq_iff id j))
]

-- The task that the reaper leaves under an id: none if the build finished at least the retention
-- time ago, and else the one that was there; so a build that has not finished stays.
abbrev pub kept_task : ℕ → ℕ → Option Task → Option Task
kept_task now keep_ttl none = none
kept_task now keep_ttl (some t) = elim t.finished_at [
  | none ↦ some t
  | some finished ↦ if ltb now (finished + keep_ttl) then some t else none
]

-- In a table with one task to an id, the reaper leaves under each id what `kept_task` says: it
-- removes a build exactly if it finished and now is not before the finishing time plus the
-- retention time.
pub lookup-delete_expired :
    (now keep_ttl : ℕ) (j : Text) (s : Store)
    → Unique s
    → lookup j (delete_expired now keep_ttl s).0 ≡ kept_task now keep_ttl (lookup j s)
unfolding delete_expired is_expired
lookup-delete_expired now keep_ttl j s u = ground (arith, lookup-loop now keep_ttl j s s u)
