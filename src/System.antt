-- ===== src/System.antt =====
-- The running service: every message is handled in a goroutine of its own (the subscription of
-- cmd/start.go calls `go svc.ReceiveNATSMsg(m)`), next to the goroutine of `ProcessBatchHistory`.
-- A handler (internal/service/event_process.go, track.go, track_history.go) is cut where others can
-- come between: at each publication, each lock of the track map, the reading of the clock, the send
-- into the history channel and each call of the database. The environment chooses who goes next.
pub mod Rules
pub mod Alone
pub mod Sequential
pub mod Trace
pub mod Steps
pub mod Accounts
pub mod Rows
pub mod Consistency
pub mod Progress
pub mod Courses
pub mod Races
pub mod Drain
pub mod Costs
pub mod Termination
pub mod Quiet
pub mod Stored
use go_template_aerospike.Prelude.{
  ℕ, ℤ, pos, Bytes, text, eq_bytes, eqb_ℤ, Bool, true, false, Option, none, some, List, [], ◌∷◌,
  ◌++◌, Exec, Outcome, returned, panicked, blocked, pure, gets, lift, ◌>>=◌, ◌>>◌, if◌then◌else◌,
  Checked, value, and_then, take_out, ◌≡◌, arith, Bool-cases, Option-cases, refl, inl, inr,
}
use go_template_aerospike.Track.{Track, TrackHistory}
use go_template_aerospike.Convert.{convert}
use go_template_aerospike.History.{history_of}
use go_template_aerospike.Service.{Any, World, Service, new_service, publish_event, send_history}
use go_template_aerospike.Tracks.{
  track_subject, diff_array, update_track_to_map, remove_track_from_map, forget_history,
  remove_missing, get_all_track_ids,
}
use go_template_aerospike.Batch.{Batch, Event, received, ticked, expired, empty_batch, round}
use go_template_aerospike.Batch.Laws.{state_of}

-- Where the handler of a message stands, with what it still needs.
pub data Handler : Type 0 where
  -- before the first statement of `ReceiveNATSMsg`
  arrived : Bytes → Bytes → Handler
  -- `processIpcTrackUpdate` before its publication, the update of the map, and `CreateTrackHistory`
  publishing : Track → Bytes → Handler
  storing : Track → Handler
  recording : Track → Handler
  -- `CreateTrackHistory` before its send
  sending : TrackHistory → Handler
  -- `processIpcTrackRemove` before a round of its loop, before `removeTrackFromMap`, and before
  -- `DeleteTrackHistory`
  removing : List ℤ → Handler
  unmapping : ℤ → List ℤ → Handler
  forgetting : ℤ → List ℤ → Handler
  -- `processIpcTrackStatistic` before `GetAllTrackIds`, `removeTracksFromMap` and its publication
  listing : List ℤ → Bytes → Handler
  dropping : List ℤ → Bytes → Handler
  announcing : Bytes → Handler

-- The handler goes on unless its message could not be encoded.
abbrev pub encoded : (Bytes → Handler) → Option Bytes → Option Handler
encoded f none = none
encoded f (some payload) = some (f payload)

module _ {Db : Type 0} (w : World Db) where
  -- `ProcessIpcEvent`, up to the first effect of the handler that it calls.
  unfoldable pub dispatch : ℤ → Option Any → Checked (Option Handler)
  dispatch kind detail =
      if eqb_ℤ kind (pos 1)
      then and_then (convert w.fpu (some (w.unmarshal_track_message detail)))
          (λ converted. value (encoded (publishing converted.0) (w.marshal_track converted.0)))
      else if eqb_ℤ kind (pos 4)
      then value (some (removing (w.unmarshal_removed_tracks detail)))
      else if eqb_ℤ kind (pos 5)
      then value (
          encoded (listing (w.unmarshal_track_statistics detail))
            (w.marshal_list_current_tracks (w.unmarshal_track_statistics detail)))
      else value none

  -- The handler goes on to where it can be interrupted next; `none`: it has returned. `now` is what
  -- `time.Now().UnixMilli()` gives.
  unfoldable pub advance : ℤ → Handler → Exec (Service Db) (Option Handler)
  advance now (arrived subject content) =
      if eq_bytes subject track_subject
      then elim (w.unmarshal_base_message content) [
        | none ↦ pure none
        | some base ↦ lift (dispatch base.message_type base.message_detail)
      ]
      else pure none
  advance now (publishing t payload) =
      publish_event w payload (text "track.update") >> pure (some (storing t))
  advance now (storing t) = update_track_to_map t >> pure (some (recording t))
  advance now (recording t) = do h ← lift (history_of now t); pure (some (sending h))
  advance now (sending h) = send_history h >> pure none
  advance now (removing []) = pure none
  advance now (removing (k ∷ ks)) = elim (w.marshal_delete_track k) [
    | none ↦ pure none
    | some payload ↦ publish_event w payload (text "track.delete") >> pure (some (unmapping k ks))
  ]
  advance now (unmapping k ks) = remove_track_from_map k >> pure (some (forgetting k ks))
  advance now (forgetting k ks) = forget_history w k >> pure (some (removing ks))
  advance now (listing ids payload) = do
    present ← gets (get_all_track_ids w)
    pure (some (dropping (diff_array present ids) payload))
  advance now (dropping ks payload) = remove_missing ks >> pure (some (announcing payload))
  advance now (announcing payload) = publish_event w payload (text "track.all") >> pure none

-- The service, the handlers that have not returned, and the writer of the history, which uses the
-- service's database. A panic in any goroutine ends the process.
pub record System (Db : Type 0) : Type 0 where
  pub service : Service Db
  pub handlers : List Handler
  pub writer : Batch Db
  pub crashed : Bool

-- What happens next: a message is delivered, the handler at an index goes on at a time, or the
-- writer takes a row, meets its timer, or the timer goes off. The writer's context is the
-- background and nobody closes its channel, so that it never returns.
pub data Happening : Type 0 where
  delivers : Bytes → Bytes → Happening
  runs : ℕ → ℤ → Happening
  takes : Happening
  ticks : Happening
  expires : Happening

unfoldable pub new_system : {Db : Type 0} → Db → System Db
unfolding new_service
new_system db = record {
  service = new_service db;
  handlers = [];
  writer = empty_batch db;
  crashed = false;
}

-- A handler that has returned is gone.
abbrev pub still_there : Option Handler → List Handler
still_there none = []
still_there (some h) = h ∷ []

module _ {Db : Type 0} where
  -- A handler that waits in its send does not go on: `none`.
  unfoldable pub went :
      List Handler → System Db → Outcome (Service Db) (Option Handler) → Option (System Db)
  went rest sys (returned next s) =
      some (record sys { service = s; handlers = still_there next ++ rest })
  went rest sys (panicked s) = some (record sys { service = s; handlers = rest; crashed = true })
  went rest sys (blocked s) = none

module _ {Db : Type 0} (w : World Db) where
  unfoldable pub run_handler : ℤ → Option (Handler × List Handler) → System Db → Option (System Db)
  unfolding went advance
  run_handler now none sys = none
  run_handler now (some (h, rest)) sys = went rest sys (advance w now h sys.service)

module _ {Db : Type 0} (w : World Db) (batch_size : ℕ) where
  -- A round of the writer, on the database that all share.
  unfoldable pub write : Event → System Db → System Db
  unfolding round
  write e sys =
      let b =
        state_of
          (round w.client w.namespace batch_size e (record sys.writer { db = sys.service.db })) in
      record sys { service = record sys.service { db = b.db }; writer = b }

  unfoldable pub take_row : List TrackHistory → System Db → Option (System Db)
  unfolding write
  take_row [] sys = none
  take_row (h ∷ hs) sys =
      some (write (received h) (record sys { service = record sys.service { history_ch = hs } }))

  -- `none` is what cannot happen in this state.
  unfoldable pub happen_alive : Happening → System Db → Option (System Db)
  unfolding run_handler take_row write
  happen_alive (delivers subject content) sys =
      some (record sys { handlers = sys.handlers ++ arrived subject content ∷ [] })
  happen_alive (runs i now) sys = run_handler w now (take_out i sys.handlers) sys
  happen_alive takes sys = take_row sys.service.history_ch sys
  happen_alive ticks sys = some (write ticked sys)
  happen_alive expires sys = some (write expired sys)

  unfoldable pub happen : Happening → System Db → Option (System Db)
  unfolding happen_alive
  happen e sys = if sys.crashed then none else happen_alive e sys

  unfoldable pub run_system : List Happening → System Db → Option (System Db)
  unfolding happen
  run_system [] sys = some sys
  run_system (e ∷ es) sys = elim (happen e sys) [ none ↦ none | some sys' ↦ run_system es sys' ]

  pub happen_goes :
      (e : Happening) (sys sys' : System Db)
      → happen e sys ≡ some sys'
      → (sys.crashed ≡ false) × (happen_alive e sys ≡ some sys')
  unfolding happen
  happen_goes e sys sys' h = elim (Bool-cases sys.crashed) [
    | inl dead ↦ absurd (ground arith)
    | inr alive ↦ (alive, ground (arith, h, alive))
  ]

  pub run_system_goes :
      (e : Happening) (es : List Happening) (sys sys' : System Db)
      → run_system (e ∷ es) sys ≡ some sys'
      → (next : System Db) × (happen e sys ≡ some next) × (run_system es next ≡ some sys')
  unfolding run_system
  run_system_goes e es sys sys' h = elim (Option-cases (happen e sys)) [
    | inl impossible ↦ absurd (ground arith)
    | inr (next, p) ↦ (next, p, rw (p, run_system) at h)
  ]

  pub run_cons :
      (e : Happening) (es : List Happening) (sys next sys' : System Db)
      → happen e sys ≡ some next
      → run_system es next ≡ some sys'
      → run_system (e ∷ es) sys ≡ some sys'
  unfolding run_system
  run_cons e es sys next sys' h r = rw (h, run_system) r

  pub run_done : (sys : System Db) → run_system [] sys ≡ some sys
  unfolding run_system
  run_done sys = refl

  -- What each thing that happens keeps, a run keeps.
  pub run_system-keeps :
      (P : System Db → Type 0) (es : List Happening) (sys sys' : System Db)
      → ((e : Happening) (s s' : System Db) → happen_alive e s ≡ some s' → P s → P s')
      → run_system es sys ≡ some sys'
      → P sys
      → P sys'
  run_system-keeps P [] sys sys' keeps h p =
      let same : sys ≡ sys' = unfold run_system in cc in rw (← same) p
  run_system-keeps P (e ∷ es) sys sys' keeps h p =
      let (next, first, others) = run_system_goes e es sys sys' h in
      run_system-keeps P es next sys' keeps others
        (keeps e sys next (happen_goes e sys next first).1 p)
