-- ===== src/Tests/Modes.antt =====
-- Build modes and their queues: internal/builddaemon/mode_scheduler.go.
use buildkit_service.Prelude.{
  ◌≡◌, refl, true, false, List, [], ◌∷◌, Map, Text, text, eq_text, text_eq, trim_space, ok, err,
  pos,
}
use buildkit_service.Daemon.Modes.{
  BuildModes, ModeConfig, Decoded, decoded, over_limit, parse_build_modes, modes_from, modes_of,
  valid_build_mode_name,
}
use buildkit_service.Daemon.Queue.{TaskQueue}
use buildkit_service.Daemon.Queue.Order.{
  Event, pushes, pops, closes, happen_all, no_history, IsOrdered, happen_all-IsOrdered,
}
use buildkit_service.Daemon.Scheduler.{ModeScheduler}

abbrev two_modes : Map Text ModeConfig
two_modes =
    (text "fast", record { concurrency = pos 2; routing_enabled = false })
    ∷ (text "bulk", record { concurrency = pos 3; routing_enabled = true })
    ∷ []

abbrev decode_two : Text → Decoded
decode_two raw = decoded two_modes false

abbrev accepted : BuildModes
accepted = record { default_mode = text "bulk"; configs = two_modes; explicit = true }

accepts : parse_build_modes decode_two (text "{}") (text " bulk ") (pos 5) ≡ ok accepted
unfolding parse_build_modes modes_from modes_of trim_space valid_build_mode_name text_eq
accepts = refl

refuses : parse_build_modes decode_two (text "{}") (text " bulk ") (pos 4) ≡ err (over_limit 5)
unfolding parse_build_modes modes_from modes_of trim_space valid_build_mode_name text_eq
refuses = refl

abbrev waiting : TaskQueue
waiting = record { ids = text "b1" ∷ []; closed = false }

abbrev busy : ModeScheduler
busy = record {
  queues = (text "fast", waiting) ∷ (text "bulk", waiting) ∷ [];
  workers = [];
  once = false;
}

abbrev traffic : List Event
traffic = pushes (text "b1") ∷ pushes (text "b2") ∷ pops ∷ closes ∷ pushes (text "b3") ∷ pops ∷ []

traffic_delivers : (happen_all traffic no_history).delivered ≡ text "b1" ∷ []
unfolding happen_all no_history
traffic_delivers = refl

happen_all-IsOrdered_example : IsOrdered (happen_all traffic no_history)
happen_all-IsOrdered_example = happen_all-IsOrdered traffic
