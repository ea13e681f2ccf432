-- ===== src/Tests/Interleaving.antt =====
-- The service with several handlers under way.
use go_template_aerospike.Prelude.{
  ◌+◌, ◌≤◌, ◌<◌, pos, Bytes, show_int, false, Option, none, some, List, [], ◌∷◌, ◌++◌, ◌≡◌, ◌⊎◌,
  refl, arith, length, lookup, All, value, take_out, map, text,
}
use go_template_aerospike.Track.{Track}
use go_template_aerospike.Ipc.{TrackMessage}
use go_template_aerospike.Convert.{convert}
use go_template_aerospike.Aerospike.{Key}
use go_template_aerospike.Aerospike.Memory.{Store, memory, get, memory-IsFaithful}
use go_template_aerospike.History.{history_of, delete_track_history, insert_history}
use go_template_aerospike.History.Writes.{last_row, shadowed}
use go_template_aerospike.Batch.Stored.{IsWritable}
use go_template_aerospike.System.Quiet.{IsNoRemoval}
use go_template_aerospike.System.Stored.{run_system-stored}
use go_template_aerospike.Service.{
  Any, BaseMessage, World, new_service, channel_capacity, publish_event, send_history,
}
use go_template_aerospike.Tracks.{track_subject, update_track_to_map}
use go_template_aerospike.Tracks.Update.{row_at}
use go_template_aerospike.Tracks.Consistency.{IsConsistent}
use go_template_aerospike.Batch.{Batch, empty_batch, append_row, tick}
use go_template_aerospike.System.{
  dispatch, System, Happening, delivers, runs, takes, ticks, expires, new_system, happen,
  run_system,
}
use go_template_aerospike.Batch.Laws.{join}
use go_template_aerospike.System.Rows.{run_system-rows}
use go_template_aerospike.System.Trace.{sent_in, delivered, rows}
use go_template_aerospike.System.Consistency.{run_system-IsConsistent}
use go_template_aerospike.System.Drain.{drain, run_system-drains}
use go_template_aerospike.System.Costs.{costs}
use go_template_aerospike.System.Termination.{steps, run_system-steps}
use go_template_aerospike.System.Progress.{CanHappen, run_system-progress}
use go_template_aerospike.System.Races.{older_update_wins, removed_track_returns}
use go_template_aerospike.System.Courses.{IsUpdate, IsRemoval, alive}
use go_template_aerospike.Tests.Messages.{
  test_fpu, speed, jet_message, world, start, jet_track, converted,
}

-- A bus whose contents give the type and what is in the detail.
abbrev bus : Bytes → Option BaseMessage
bus [] = none
bus (b ∷ bs) = some (record {
  message_type = pos b;
  message_detail = some (record { type_url = []; content = bs });
})

abbrev slow_message : TrackMessage
slow_message = record jet_message { polar_velocity = some (record speed { speed = some 90 }) }

abbrev slow_track : Track
slow_track = record jet_track { velocity = 90 }

abbrev track_of : Option Any → TrackMessage
track_of none = jet_message
track_of (some a) = elim a.content [ [] ↦ jet_message | b ∷ bs ↦ slow_message ]

abbrev busy_world : World Store
busy_world = record world { unmarshal_base_message = bus; unmarshal_track_message = track_of }

-- A state of the track 42, a later one, and its removal.
abbrev fast : Bytes
fast = 1 ∷ []

abbrev slow : Bytes
slow = 1 ∷ 0 ∷ []

abbrev removal : Bytes
removal = 4 ∷ []

slow_converted : convert test_fpu (some slow_message) ≡ value (slow_track, none)
unfolding convert show_int
slow_converted = refl

fast-IsUpdate : IsUpdate busy_world fast jet_track (show_int (pos 42)) (pos 2)
fast-IsUpdate = record {
  detail = some (record { type_url = []; content = [] });
  error = none;
  message = refl;
  converts = converted;
  encodes = refl;
  identified = refl;
}

slow-IsUpdate : IsUpdate busy_world slow slow_track (show_int (pos 42)) (pos 2)
slow-IsUpdate = record {
  detail = some (record { type_url = []; content = 0 ∷ [] });
  error = none;
  message = refl;
  converts = slow_converted;
  encodes = refl;
  identified = refl;
}

removal-IsRemoval : IsRemoval busy_world removal (pos 42) (show_int (pos 42))
removal-IsRemoval = record {
  detail = some (record { type_url = []; content = [] });
  message = refl;
  ids = refl;
  encodes = refl;
}

idle : Batch Store
idle = empty_batch []

little_room : length start.history_ch + 1 < channel_capacity
unfolding new_service
little_room = ground arith

room : length start.history_ch < channel_capacity
unfolding new_service
room = ground arith

older_update_wins_example :
    (es : List Happening) × (sys : System Store) × (run_system busy_world 5
        (delivers track_subject slow ∷ delivers track_subject fast ∷ es)
        (alive start idle [])
      ≡ some sys)
    × (sys.handlers ≡ [])
    × (lookup (pos 42) sys.service.track_map ≡ some (some slow_track))
    × (sys.service.history_ch
        ≡ (start.history_ch ++ row_at (pos 9) jet_track (pos 2) ∷ [])
          ++ row_at (pos 9) slow_track (pos 2) ∷ [])
older_update_wins_example =
    older_update_wins busy_world 5 idle (pos 9) slow fast slow_track jet_track (show_int (pos 42))
      (show_int (pos 42)) (pos 2) (pos 2) start slow-IsUpdate fast-IsUpdate refl little_room

removed_track_returns_example :
    (es : List Happening) × (sys : System Store) × (run_system busy_world 5
        (delivers track_subject fast ∷ delivers track_subject removal ∷ es)
        (alive start idle [])
      ≡ some sys)
    × (sys.handlers ≡ [])
    × (lookup (pos 42) sys.service.track_map ≡ some (some jet_track))
    × (sys.service.db
        ≡ (delete_track_history busy_world.client busy_world.namespace (pos 42) start.db).1)
    × (sys.service.history_ch ≡ start.history_ch ++ row_at (pos 9) jet_track (pos 2) ∷ [])
removed_track_returns_example =
    removed_track_returns busy_world 5 idle (pos 9) fast removal jet_track (show_int (pos 42))
      (show_int (pos 42)) (pos 2) start fast-IsUpdate removal-IsRemoval room

-- Two messages; the handler of the second is ahead of the first's, and its row is taken.
abbrev course : List Happening
course =
    delivers track_subject fast
    ∷ delivers track_subject slow
    ∷ runs 1 (pos 9)
    ∷ runs 0 (pos 9)
    ∷ runs 0 (pos 9)
    ∷ runs 0 (pos 9)
    ∷ runs 0 (pos 9)
    ∷ takes
    ∷ []

abbrev rest_of_course : List Happening
rest_of_course = runs 0 (pos 10) ∷ runs 0 (pos 10) ∷ expires ∷ ticks ∷ []

abbrev stands : System Store
stands = elim (run_system busy_world 5 course (new_system [])) [
  | none ↦ new_system []
  | some sys ↦ sys
]

abbrev stands_later : System Store
stands_later = elim (run_system busy_world 5 rest_of_course stands) [
  | none ↦ new_system []
  | some sys ↦ sys
]

course_runs : run_system busy_world 5 course (new_system []) ≡ some stands
unfolding run_system new_system take_out dispatch convert publish_event update_track_to_map
    history_of send_history append_row
course_runs = refl

later_runs : run_system busy_world 5 rest_of_course stands ≡ some stands_later
unfolding run_system new_system take_out dispatch convert publish_event update_track_to_map
    history_of send_history append_row tick
later_runs = refl

-- The handler of the second message has returned, that of the first has not gone on.
one_handler : length stands.handlers ≡ 1
unfolding run_system new_system take_out dispatch convert publish_event update_track_to_map
    history_of send_history append_row
one_handler = refl

stands_alive : stands.crashed ≡ false
unfolding run_system new_system take_out dispatch convert publish_event update_track_to_map
    history_of send_history append_row
stands_alive = refl

grown_example : rows stands_later ≡ rows stands ++ sent_in busy_world 5 rest_of_course stands
grown_example =
    run_system-rows busy_world 5 course rest_of_course [] stands stands_later course_runs later_runs

run_system-IsConsistent_example : IsConsistent stands.service.track_map
run_system-IsConsistent_example = run_system-IsConsistent busy_world 5 course [] stands course_runs

system_progress_example :
    CanHappen busy_world 5 (runs 0 (pos 10)) stands
    ⊎ ((sys' : System Store) × (happen busy_world 5 takes stands ≡ some sys')
        × CanHappen busy_world 5 (runs 0 (pos 10)) sys')
system_progress_example =
    run_system-progress busy_world 5 course [] stands 0 (pos 10) course_runs stands_alive
      (omega (arith, one_handler))

drains_example :
    (sys' : System Store) × (run_system busy_world 5 (drain stands.service.history_ch) stands
      ≡ some sys')
    × (sys'.service.history_ch ≡ [])
    × (join sys'.writer.flushed ≡ rows stands)
    × (sys'.handlers ≡ stands.handlers)
drains_example =
    run_system-drains busy_world 5 course [] stands (omega arith) course_runs stands_alive

writable : IsWritable memory (text "test")
unfolding insert_history memory
writable h db = refl

no_removals : All (IsNoRemoval busy_world) (delivered course)
no_removals = (
  (λ base same read four. ground (arith, read, four)),
  ((λ base same read four. ground (arith, read, four)), tt),
)

stored_example :
    (sys' : System Store) × (run_system busy_world 5 (drain stands.service.history_ch) stands
      ≡ some sys')
    × ((k : Key)
        → get k sys'.service.db
          ≡ shadowed (last_row (text "test") k (map some (rows stands))) (get k []))
stored_example =
    run_system-stored busy_world 5 get course [] stands (omega arith) memory-IsFaithful writable
      no_removals course_runs stands_alive

steps_example : steps course ≤ costs busy_world (delivered course)
steps_example = run_system-steps busy_world 5 course [] stands course_runs
