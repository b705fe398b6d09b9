-- ===== src/Daemon/Steps/Frame.antt =====
-- What each step does to the task under one id: nothing to the others, and to its own what the
-- closure says.
use buildkit_service.Prelude.{
  ℕ, ◌≡◌, refl, ◌∙◌, ◌⊎◌, inl, inr, Option, none, some, [], ◌∷◌, Text, lookup, erase, lookup-insert,
  lookup-erase, if◌then◌else◌, text_eq, text_eq_iff, eq_text, Bool-cases, Option-cases, arith,
}
use buildkit_service.Daemon.Task.{Task}
use buildkit_service.Daemon.Store.{
  Store, update, delete, delete_expired, delete_expired_loop, is_expired,
}

abbrev pub map_first {ℓ} : {R : Type ℓ} → (Task → Task × R) → Option Task → Option Task
map_first f none = none
map_first f (some t) = some (f t).0

pub lookup-update {ℓ} :
    {R : Type ℓ} (id j : Text) (f : Task → Task × R) (r : R) (s : Store)
    → lookup j (update id f r s).0 ≡ (if text_eq id j then map_first f (lookup j s) else lookup j s)
unfolding update
lookup-update id j f r s = elim (Option-cases (lookup id s)) [
  | inl e ↦ rw (e, update) (ground (arith, text_eq_iff id j))
  | inr (t, e) ↦ rw (e, update) (lookup-insert id j (f t).0 s ∙ ground (arith, text_eq_iff id j))
]

-- A step that deletes leaves each other task as it was.
pub lookup-delete :
    (id j : Text) (s : Store)
    → (lookup j (delete id s).0 ≡ lookup j s) ⊎ (lookup j (delete id s).0 ≡ none)
unfolding delete
lookup-delete id j s = elim (Option-cases (lookup id s)) [
  | inl e ↦ rw (e, delete) (inl refl)
  | inr (t, e) ↦ rw (e, delete) (ground (arith, lookup-erase id j s))
]

lookup-delete_expired_loop :
    (now keep_ttl : ℕ) (j : Text) (es s : Store)
    → (lookup j (delete_expired_loop now keep_ttl es s).0 ≡ lookup j s)
      ⊎ (lookup j (delete_expired_loop now keep_ttl es s).0 ≡ none)
unfolding delete_expired_loop
lookup-delete_expired_loop now keep_ttl j [] s = inl refl
lookup-delete_expired_loop now keep_ttl j ((id, t) ∷ es) s =
    elim (Bool-cases (is_expired now keep_ttl t)) [
      | inl e ↦ rw e (
          ground
            (arith, lookup-delete_expired_loop now keep_ttl j es (erase id s), lookup-erase id j s))
      | inr e ↦ rw e (lookup-delete_expired_loop now keep_ttl j es s)
    ]

pub lookup-delete_expired :
    (now keep_ttl : ℕ) (j : Text) (s : Store)
    → (lookup j (delete_expired now keep_ttl s).0 ≡ lookup j s)
      ⊎ (lookup j (delete_expired now keep_ttl s).0 ≡ none)
unfolding delete_expired
lookup-delete_expired now keep_ttl j s = lookup-delete_expired_loop now keep_ttl j s s
