-- ===== src/Daemon/Attempt/Rounds.antt =====
-- internal/builddaemon/tasks.go: how an attempt is made of its rounds.
use buildkit_service.Prelude.{ℕ, ◌≡◌, refl, ◌⊎◌, inl, inr, Option, none, some, ◌++◌}
use buildkit_service.Daemon.Attempt.{
  Turn, returns, again, Round, Outcome, Run, done, starved, stuck, after_events, next_round,
}

-- The last round of an attempt.
pub record Returns (r : Round) (next : ℕ) (o : Outcome) : Type 0 where
  pub turn : r.turn ≡ returns o.exporter o.error
  pub same_server : o.server ≡ r.server
  pub same_pool : o.pool ≡ r.pool
  pub same_next : o.next ≡ next
  pub same_events : o.events ≡ r.events

-- A round that another follows.
pub record Goes (r : Round) (k : Round → Run Outcome) (o : Outcome) : Type 0 where
  pub turn : r.turn ≡ again
  pub rest : Outcome
  pub follows : k r ≡ done rest
  pub same_server : o.server ≡ rest.server
  pub same_pool : o.pool ≡ rest.pool
  pub same_events : o.events ≡ r.events ++ rest.events

after_done :
    (r : Round) (k : Round → Run Outcome) (x : Run Outcome) (o : Outcome)
    → r.turn ≡ again
    → k r ≡ x
    → after_events r.events x ≡ done o
    → Goes r k o
unfolding after_events
after_done r k (done p) o e f h = record {
  turn = e;
  rest = p;
  follows = f;
  same_server = cc;
  same_pool = cc;
  same_events = cc;
}
after_done r k starved o e f h = cc
after_done r k stuck o e f h = cc

turn_done :
    (r : Round) (next : ℕ) (k : Round → Run Outcome) (t : Turn) (o : Outcome)
    → r.turn ≡ t
    → next_round (some r) next k ≡ done o
    → Returns r next o ⊎ Goes r k o
unfolding next_round
turn_done r next k (returns ex e) o f h =
    inl (record { turn = cc; same_server = cc; same_pool = cc; same_next = cc; same_events = cc })
turn_done r next k again o f h = inr (after_done r k (k r) o f refl cc)

pub next_round-done :
    (x : Option Round) (next : ℕ) (k : Round → Run Outcome) (o : Outcome)
    → next_round x next k ≡ done o
    → (r : Round) × (x ≡ some r) × (Returns r next o ⊎ Goes r k o)
unfolding next_round
next_round-done none next k o h = cc
next_round-done (some r) next k o h = (r, refl, turn_done r next k r.turn o refl h)
