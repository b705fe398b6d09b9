-- ===== src/Daemon/Router/Rendezvous.antt =====
-- internal/builddaemon/target_router.go: which target a context goes to, and what happens to it
-- when the targets change.
use buildkit_service.Prelude.{
  ℕ, ◌≡◌, ◌≢◌, refl, sym, ap, ◌∙◌, Bool, true, false, Option, none, some, List, [], ◌∷◌, ◌++◌, ◌⊎◌,
  Text, text, text_ltb, text_eq, starts_with, starts_with-append, text_le_trans, text_ltb_asymm,
  append_assoc, trim_space, not, ◌&&◌, ok, inl, inr, Bool-cases, arith, if◌then◌else◌,
}
use buildkit_service.Daemon.Router.{
  Reference, Libraries, RegistryRoutingTarget, select_from, select, path_under, image_at, suffix_of,
  rendezvous_score, on_named, route, normalize_context_sha256,
}

module _ (score : RegistryRoutingTarget → List ℕ) where
  -- A target that scores no more than another gives way to the same targets.
  weaker_start :
      (s t : RegistryRoutingTarget) (rest : List RegistryRoutingTarget)
      → text_ltb (score t) (score s) ≡ false
      → select_from score t rest ≢ t
      → select_from score s rest ≡ select_from score t rest
  unfolding select_from
  weaker_start s t [] le ne = absurd (ne refl)
  weaker_start s t (b ∷ rest) le ne = elim (Bool-cases (text_ltb (score t) (score b))) [
    | inl above ↦
        let also : text_ltb (score s) (score b) ≡ true =
          ground (arith, text_le_trans (score b) (score s) (score t), le, above) in
        rw (above, also) refl
    | inr below ↦ elim (Bool-cases (text_ltb (score s) (score b))) [
      | inl over ↦ rw (below, over) (weaker_start b t rest below (rw below at ne))
      | inr under ↦ rw (below, under) (weaker_start s t rest le (rw below at ne))
    ]
  ]

  pub select_from-without :
      (s : RegistryRoutingTarget) (front : List RegistryRoutingTarget) (t : RegistryRoutingTarget)
      (back : List RegistryRoutingTarget)
      → select_from score s (front ++ t ∷ back) ≢ t
      → select_from score s (front ++ back) ≡ select_from score s (front ++ t ∷ back)
  unfolding select_from
  select_from-without s [] t back ne = by_test (text_ltb (score s) (score t)) refl ne
    where
      by_test :
          (b : Bool)
          → text_ltb (score s) (score t) ≡ b
          → select_from score (if b then t else s) back ≢ t
          → select_from score s back ≡ select_from score (if b then t else s) back
      by_test true above ne' = weaker_start s t back (text_ltb_asymm (score s) (score t) above) ne'
      by_test false below ne' = refl
  select_from-without s (f ∷ front) t back ne =
      select_from-without (if text_ltb (score s) (score f) then f else s) front t back ne

  -- No target scores above the one that is selected.
  abbrev pub Beats : RegistryRoutingTarget → RegistryRoutingTarget → Type 0
  Beats best t = text_ltb (score best) (score t) ≡ false

abbrev moves : RegistryRoutingTarget → Text → Bool
moves target path =
    not (text_eq target.path_prefix [])
    && not (text_eq path target.path_prefix)
    && not (starts_with (target.path_prefix ++ text "/") path)

starts :
    (target : RegistryRoutingTarget) (path : Text)
    → starts_with (target.path_prefix ++ text "/") (target.path_prefix ++ (text "/" ++ path)) ≡ true
starts target path =
    ap (starts_with (target.path_prefix ++ text "/"))
      (sym (append_assoc target.path_prefix (text "/") path))
    ∙ starts_with-append (target.path_prefix ++ text "/") path

stays :
    (target : RegistryRoutingTarget) {path : Text}
    → starts_with (target.path_prefix ++ text "/") path ≡ true
    → path_under target path ≡ path
stays target h = ground (arith, h)

-- The path below a target's prefix is not changed again.
path_under_again :
    (target : RegistryRoutingTarget) (path : Text)
    → path_under target (path_under target path) ≡ path_under target path
path_under_again target path = elim (Bool-cases (moves target path)) [
  | inl e ↦ rw e (stays target (starts target path))
  | inr e ↦ rw e (rw e refl)
]

-- A target that a context does not go to can be removed without a change of its route.
pub route-without :
    (lib : Libraries) (first : RegistryRoutingTarget) (front : List RegistryRoutingTarget)
    (t : RegistryRoutingTarget) (back : List RegistryRoutingTarget) (image context digest : Text)
    → normalize_context_sha256 context ≡ ok digest
    → select lib digest first (front ++ t ∷ back) ≢ t
    → route lib (some (first ∷ (front ++ back))) image context
      ≡ route lib (some (first ∷ (front ++ t ∷ back))) image context
unfolding route
route-without lib first front t back image context digest e ne = rw e (
    ap (λ best. on_named best (lib.parse_normalized_named (trim_space image)))
      (select_from-without (λ u. rendezvous_score lib u.prefix digest) first front t back ne))

-- A path is at the prefix of a target or below it; every path is, where the target has none.
abbrev pub IsUnder : RegistryRoutingTarget → Text → Type 0
IsUnder target path =
    (target.path_prefix ≡ [])
    ⊎ ((path ≡ target.path_prefix) ⊎ (starts_with (target.path_prefix ++ text "/") path ≡ true))

-- The path of an image at a target: that of the image, put below the prefix where it is not.
abbrev pub IsPathAt : RegistryRoutingTarget → Text → Text → Type 0
IsPathAt target original path =
    IsUnder target path
    × ((path ≡ original) ⊎ (path ≡ target.path_prefix ++ (text "/" ++ original)))

-- What follows the path of an image.
abbrev pub tag_and_digest : Option Text → Option Text → Text
tag_and_digest none none = []
tag_and_digest (some tag) none = text ":" ++ tag
tag_and_digest none (some digest) = text "@" ++ digest
tag_and_digest (some tag) (some digest) = text ":" ++ (tag ++ (text "@" ++ digest))

-- An image that has been routed is routed to itself, if the library parses it to its parts.
pub route-again :
    (lib : Libraries) (first : RegistryRoutingTarget) (rest : List RegistryRoutingTarget)
    (image context digest : Text) (named : Reference)
    → normalize_context_sha256 context ≡ ok digest
    → lib.parse_normalized_named (trim_space image) ≡ ok named
    → lib.parse_normalized_named (trim_space (image_at (select lib digest first rest) named))
      ≡ ok (record named {
        domain = (select lib digest first rest).host;
        path = path_under (select lib digest first rest) named.path;
      })
    → route lib (some (first ∷ rest)) (image_at (select lib digest first rest) named) context
      ≡ route lib (some (first ∷ rest)) image context
unfolding route
route-again lib first rest image context digest named e f g =
    let best = select lib digest first rest in
    rw (e, f, g)
      (ap (λ path. ok (best.host ++ (text "/" ++ (path ++ suffix_of named))))
        (path_under_again best named.path))
