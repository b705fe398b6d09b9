-- ===== src/Batch/Command/Completion.antt =====
-- internal/buildbatch/build_command_batch.go: a command can always be brought to its end.
use buildkit_service.Prelude.{
  ℕ, zero, suc, ◌≤◌, ◌≡◌, refl, true, ◌⊎◌, Option, none, some, List, [], ◌∷◌, Text, get_elem?,
  length, inl, inr, arith,
}
use buildkit_service.Batch.Counters.{ResultEntry}
use buildkit_service.Batch.Command.{
  Options, BuildTask, Command, Event, admitted, slot_acquired, wait_ended, spec_built, round_ended,
  interrupted, step, run_events, IsOver,
}
use buildkit_service.Batch.Command.Progress.{work, enabled, step-work}

-- What a build and the database after it answer.
abbrev pub Answer : Type 0
Answer = BuildTask → ResultEntry × Option Text

-- A step that the command can take when nothing comes to its aid: a slot is free at the latest when
-- none of its builds runs, a build answers as it does, and nothing interrupts it.
abbrev pub CanHappen : Answer → Event → Command → Type 0
CanHappen answer admitted c = enabled admitted c ≡ true
CanHappen answer slot_acquired c = (enabled slot_acquired c ≡ true) × (c.running ≡ [])
CanHappen answer wait_ended c = ⊥
CanHappen answer (spec_built i entry put) c =
    (t : BuildTask) × (get_elem? c.running i ≡ some t) × (answer t ≡ (entry, put))
CanHappen answer round_ended c = enabled round_ended c ≡ true
CanHappen answer interrupted c = ⊥

abbrev pub CanGo : Options → Answer → List Event → Command → Type 0
CanGo o answer [] c = Unit {0}
CanGo o answer (e ∷ es) c = CanHappen answer e c × CanGo o answer es (step o e c)

CanHappen-enabled :
    (answer : Answer) (e : Event) (c : Command) → CanHappen answer e c → enabled e c ≡ true
CanHappen-enabled answer admitted c h = h
CanHappen-enabled answer slot_acquired c (h, free) = h
CanHappen-enabled answer wait_ended c h = absurd h
CanHappen-enabled answer (spec_built i entry put) c (t, h, same) = rw h refl
CanHappen-enabled answer round_ended c h = h
CanHappen-enabled answer interrupted c h = absurd h

-- Until it is over, a command has such a step.
next_step : (answer : Answer) (c : Command) → IsOver c ⊎ ((e : Event) × CanHappen answer e c)
next_step answer c = by_parts c.pending c.waiting c.running c.retry_queue refl refl refl refl
  where
    by_parts :
        (ts : List BuildTask) (w : Option BuildTask) (rs qs : List BuildTask)
        → c.pending ≡ ts
        → c.waiting ≡ w
        → c.running ≡ rs
        → c.retry_queue ≡ qs
        → IsOver c ⊎ ((e : Event) × CanHappen answer e c)
    by_parts ts w (r ∷ rs) qs e f g q =
        inr (spec_built 0 (answer r).0 (answer r).1, (r, rw g refl, refl))
    by_parts ts (some w) [] qs e f g q = inr (slot_acquired, (rw f refl, g))
    by_parts (t ∷ ts) none [] qs e f g q = inr (admitted, rw (e, f) refl)
    by_parts [] none [] (r ∷ qs) e f g q = inr (round_ended, rw (e, f, g, q) refl)
    by_parts [] none [] [] e f g q =
        inl (record { no_pending = e; no_waiting = f; no_running = g; no_retry = q })

-- The steps that bring a command to its end.
abbrev pub Completes : Options → Answer → Command → ℕ → Type 0
Completes o answer c n =
    (es : List Event) × CanGo o answer es c × (length es ≤ n) × IsOver (run_events o es c)

work-Completes :
    (o : Options) (answer : Answer) (n : ℕ) (c : Command) → work o c ≤ n → Completes o answer c n
unfolding run_events
work-Completes o answer zero c h = by_step (next_step answer c)
  where
    by_step : IsOver c ⊎ ((e : Event) × CanHappen answer e c) → Completes o answer c zero
    by_step (inl over) = ([], tt, omega arith, over)
    by_step (inr (e, can)) =
        absurd (omega (arith, h, step-work o e c (CanHappen-enabled answer e c can)))
work-Completes o answer (suc n) c h =
    by_step (λ d less. work-Completes o answer n d less) (next_step answer c)
  where
    by_step :
        ((d : Command) → work o d ≤ n → Completes o answer d n)
        → IsOver c ⊎ ((e : Event) × CanHappen answer e c)
        → Completes o answer c (suc n)
    by_step next (inl over) = ([], tt, omega arith, over)
    by_step next (inr (e, can)) =
        let (es, go, few, over) =
          next (step o e c)
            (omega (arith, h, step-work o e c (CanHappen-enabled answer e c can))) in
        (e ∷ es, (can, go), omega (arith, few), over)

-- Whatever its builds and its database answer, a command comes to its end from any state, in no
-- more steps than `work` counts there: by steps of its own alone, without an interruption, and where
-- it gets a slot only while none of its builds holds one.
pub run_events-Completes :
    (o : Options) (answer : Answer) (c : Command) → Completes o answer c (work o c)
run_events-Completes o answer c = work-Completes o answer (work o c) c (omega arith)
