-- ===== src/Batch/Daemon/Exclusion.antt =====
-- internal/buildbatch/daemon_handlers.go: at most one request is on its way to its final state.
use buildkit_service.Prelude.{
  ℕ, ◌≡◌, ◌≢◌, refl, sym, ap, ◌∙◌, subst, Bool, true, false, ◌⊎◌, Option, none, some, List, [], ◌∷◌,
  nat_eq, nat_eq_iff, inl, inr, Bool-cases, arith,
}
use buildkit_service.Batch.Daemon.{
  DaemonServer, is_running, Action, sets_state, cancels_build, closes_done, clears_execution,
  sets_oneshot, removes_images, extracts_images, triggers_shutdown, act, set_build_state,
  clear_build_execution, trigger_shutdown, Request, post_plan, System, start_system,
  new_daemon_server, with_plan, handle_build_post, handle_build_cancel, cancel_current,
  handle_shutdown, act_next, Event, posted, cancel_posted, shutdown_posted, acted, step, run_events,
}
use buildkit_service.Batch.Daemon.Plans.{Late, Early, post_plan-Early}

-- The request of a number is the one that builds: its context and channel are the current ones,
-- and all others have their final state behind them.
pub record Builds (done cancel : Option ℕ) (plans : ℕ → List Action) (id : ℕ) : Type 0 where
  pub is_current : done ≡ some id
  pub can_cancel : cancel ≡ some id
  pub on_its_way : Early (plans id)
  pub others : (j : ℕ) → j ≢ id → Late (plans j)

abbrev pub IsExclusive : System → Type 0
IsExclusive y =
    ((is_running y.server.build.status ≡ true)
      × ((id : ℕ) × Builds y.server.build_done y.server.build_cancel y.plans id))
    ⊎ ((is_running y.server.build.status ≡ false) × ((j : ℕ) → Late (y.plans j)))

with_plan-Late :
    (plans : ℕ → List Action) (id : ℕ) (plan : List Action) (j : ℕ)
    → (j ≢ id → Late (plans j))
    → (j ≡ id → Late plan)
    → Late (with_plan plans id plan j)
with_plan-Late plans id plan j h k = elim (Bool-cases (nat_eq id j)) [
  | inl e ↦ rw e (k (sym ((nat_eq_iff id j).0 e)))
  | inr n ↦ rw n (h (λ q. cc ((rw n at (nat_eq_iff id j).1 (sym q)))))
]

with_plan_self :
    (plans : ℕ → List Action) (id : ℕ) (plan : List Action) → with_plan plans id plan id ≡ plan
with_plan_self plans id plan = ground (arith, nat_eq_iff id id)

claim-Builds :
    (r : Request) (y : System)
    → ((j : ℕ) → Late (y.plans j))
    → Builds
        (some y.server.next_id)
        (some y.server.next_id)
        (with_plan y.plans y.server.next_id (post_plan r).1)
        y.server.next_id
claim-Builds r y h = record {
  is_current = refl;
  can_cancel = refl;
  on_its_way =
      subst Early (sym (with_plan_self y.plans y.server.next_id (post_plan r).1))
        (post_plan-Early r);
  others = λ j ne.
      with_plan-Late y.plans y.server.next_id (post_plan r).1 j (λ _. h j) (λ e. absurd (ne e));
}

posted-IsExclusive :
    (r : Request) (y : System) → IsExclusive y → IsExclusive (handle_build_post r y).1
unfolding handle_build_post
posted-IsExclusive r y (inl (e, b)) = rw e (inl (e, b))
posted-IsExclusive r y (inr (e, h)) = rw e (inl (refl, (y.server.next_id, claim-Builds r y h)))

-- An action after the final state leaves the state alone.
act-build :
    (id : ℕ) (a : Action) (plan : List Action) (s : DaemonServer)
    → Late (a ∷ plan)
    → (act id a s).build ≡ s.build
unfolding act clear_build_execution
act-build id cancels_build plan s h = refl
act-build id closes_done plan s h = refl
act-build id clears_execution plan s h = ground arith
act-build id removes_images plan s h = refl
act-build id triggers_shutdown plan s h = refl
act-build id (sets_state st) plan s h = absurd h
act-build id sets_oneshot plan s h = absurd h
act-build id extracts_images plan s h = absurd h

-- And an action of another request leaves the current context and channel alone.
act-current :
    (id cur : ℕ) (a : Action) (plan : List Action) (s : DaemonServer)
    → Late (a ∷ plan)
    → id ≢ cur
    → s.build_done ≡ some cur
    → s.build_cancel ≡ some cur
    → ((act id a s).build_done ≡ some cur) × ((act id a s).build_cancel ≡ some cur)
unfolding act clear_build_execution
act-current id cur cancels_build plan s h ne d c = (d, c)
act-current id cur closes_done plan s h ne d c = (d, c)
act-current id cur clears_execution plan s h ne d c =
    let other : nat_eq cur id ≡ false = ground arith in rw (d, other) (refl, c)
act-current id cur removes_images plan s h ne d c = (d, c)
act-current id cur triggers_shutdown plan s h ne d c = (d, c)
act-current id cur (sets_state st) plan s h ne d c = absurd h
act-current id cur sets_oneshot plan s h ne d c = absurd h
act-current id cur extracts_images plan s h ne d c = absurd h

Late-rest : (a : Action) (plan : List Action) → Late (a ∷ plan) → Late plan
Late-rest cancels_build plan h = h
Late-rest closes_done plan h = h
Late-rest clears_execution plan h = h
Late-rest removes_images plan h = h
Late-rest triggers_shutdown plan h = h
Late-rest (sets_state st) plan h = absurd h
Late-rest sets_oneshot plan h = absurd h
Late-rest extracts_images plan h = absurd h

acts-resting :
    (id : ℕ) (plan : List Action) (y : System)
    → y.plans id ≡ plan
    → is_running y.server.build.status ≡ false
    → ((j : ℕ) → Late (y.plans j))
    → IsExclusive (act_next id plan y)
acts-resting id [] y p e h = inr (e, h)
acts-resting id (a ∷ plan) y p e h =
    let late : Late (a ∷ plan) = subst Late p (h id) in
    inr (
      ap (λ b. is_running b.status) (act-build id a plan y.server late) ∙ e,
      λ j. with_plan-Late y.plans id plan j (λ _. h j) (λ _. Late-rest a plan late),
    )

module _ (y : System) (cur : ℕ) (e : is_running y.server.build.status ≡ true)
    (b : Builds y.server.build_done y.server.build_cancel y.plans cur) where
  -- Another request acts.
  acts-other :
      (id : ℕ) (plan : List Action)
      → y.plans id ≡ plan
      → id ≢ cur
      → IsExclusive (act_next id plan y)
  acts-other id [] p ne = inl (e, (cur, b))
  acts-other id (a ∷ plan) p ne =
      let late : Late (a ∷ plan) = subst Late p (b.others id ne) in
      let (done, cancel) = act-current id cur a plan y.server late ne b.is_current b.can_cancel in
      let same : with_plan y.plans id plan cur ≡ y.plans cur = ground (arith, nat_eq_iff id cur) in
      inl (
        ap (λ st. is_running st.status) (act-build id a plan y.server late) ∙ e,
        (
          cur,
          record {
            is_current = done;
            can_cancel = cancel;
            on_its_way = subst Early (sym same) b.on_its_way;
            others = λ j other.
                with_plan-Late y.plans id plan j (λ _. b.others j other)
                  (λ _. Late-rest a plan late);
          },
        ),
      )

  goes_on :
      (plan : List Action)
      → Early plan
      → Builds y.server.build_done y.server.build_cancel (with_plan y.plans cur plan) cur
  goes_on plan early = record {
    is_current = b.is_current;
    can_cancel = b.can_cancel;
    on_its_way = subst Early (sym (with_plan_self y.plans cur plan)) early;
    others = λ j ne. with_plan-Late y.plans cur plan j (λ _. b.others j ne) (λ q. absurd (ne q));
  }

  -- The request that builds acts.
  acts-current :
      (plan : List Action) → y.plans cur ≡ plan → Early plan → IsExclusive (act_next cur plan y)
  unfolding act set_build_state
  acts-current [] p early = absurd early
  acts-current (sets_state st ∷ plan) p early =
      inr (early.0, λ j. with_plan-Late y.plans cur plan j (b.others j) (λ _. early.1))
  acts-current (sets_oneshot ∷ plan) p early = inl (e, (cur, goes_on plan early))
  acts-current (removes_images ∷ plan) p early = inl (e, (cur, goes_on plan early))
  acts-current (extracts_images ∷ plan) p early = inl (e, (cur, goes_on plan early))
  acts-current (cancels_build ∷ plan) p early = absurd early
  acts-current (closes_done ∷ plan) p early = absurd early
  acts-current (clears_execution ∷ plan) p early = absurd early
  acts-current (triggers_shutdown ∷ plan) p early = absurd early

  acts-building : (id : ℕ) → IsExclusive (act_next id (y.plans id) y)
  acts-building id = elim (Bool-cases (nat_eq id cur)) [
    | inl q ↦
        let same : cur ≡ id = sym ((nat_eq_iff id cur).0 q) in
        subst (λ k. IsExclusive (act_next k (y.plans k) y)) same
          (acts-current (y.plans cur) refl b.on_its_way)
    | inr n ↦ acts-other id (y.plans id) refl (λ q. cc (rw n at (nat_eq_iff id cur).1 q))
  ]

cancelled-IsExclusive :
    (y : System)
    → IsExclusive y
    → IsExclusive (record y { server = (handle_build_cancel y.server).1 })
unfolding handle_build_cancel
cancelled-IsExclusive y h = by_current (is_running y.server.build.status) y.server.build_cancel
  where
    by_current :
        (r : Bool) (c : Option ℕ)
        → IsExclusive (record y { server = (cancel_current r c y.server).1 })
    by_current false c = h
    by_current true none = h
    by_current true (some id) = h

step-IsExclusive : (e : Event) (y : System) → IsExclusive y → IsExclusive (step e y)
unfolding step handle_shutdown trigger_shutdown
step-IsExclusive (posted r) y h = posted-IsExclusive r y h
step-IsExclusive cancel_posted y h = cancelled-IsExclusive y h
step-IsExclusive shutdown_posted y h = h
step-IsExclusive (acted id) y (inl (e, (cur, b))) = acts-building y cur e b id
step-IsExclusive (acted id) y (inr (e, h)) = acts-resting id (y.plans id) y refl e h

run_events-kept : (es : List Event) (y : System) → IsExclusive y → IsExclusive (run_events es y)
unfolding run_events
run_events-kept [] y h = h
run_events-kept (e ∷ es) y h = run_events-kept es (step e y) (step-IsExclusive e y h)

-- However requests interleave: the daemon is in the state `running` exactly while one request has
-- its final state before it; that request is the one that a cancellation reaches and a shutdown
-- waits for, and every other request has no state to set and no images to extract any more.
pub run_events-IsExclusive : (es : List Event) → IsExclusive (run_events es start_system)
unfolding start_system new_daemon_server
run_events-IsExclusive es = run_events-kept es start_system (inr (refl, λ j. tt))
