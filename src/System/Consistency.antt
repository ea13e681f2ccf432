-- ===== src/System/Consistency.antt =====
-- The track map while handlers come between one another (internal/service/track.go).
use go_template_aerospike.Prelude.{
  ℕ, ℤ, Option, none, some, List, [], ◌∷◌, ◌≡◌, refl, arith, Outcome, returned, panicked, blocked,
  final, take_out,
}
use go_template_aerospike.Track.{TrackHistory}
use go_template_aerospike.Service.{World, Service, new_service}
use go_template_aerospike.Tracks.Consistency.{
  IsConsistent, IsConsistent-empty, insert-IsConsistent, delete-IsConsistent, remove_missing-Keeps,
}
use go_template_aerospike.Batch.{Event, received, ticked, expired}
use go_template_aerospike.System.Rules.{
  Rule, ignores, convert_panics, updates, removes, counts, publishes, stores, records,
  record_panics, sends, waits, ends, publishes_removal, unmaps, forgets, lists, drops, announces,
  advance-Rule,
}
use go_template_aerospike.System.{
  Handler, advance, System, Happening, delivers, runs, takes, ticks, expires, new_system, went,
  write, run_handler, take_row, happen_alive, run_system, run_system-keeps,
}

module _ {Db : Type 0} (w : World Db) where
  Rule-IsConsistent :
      (now : ℤ) (s : Service Db) {h : Handler} {o : Outcome (Service Db) (Option Handler)}
      → Rule w now s h o
      → IsConsistent s.track_map
      → IsConsistent (final o).track_map
  Rule-IsConsistent now s (ignores subject content) c = c
  Rule-IsConsistent now s (convert_panics subject content) c = c
  Rule-IsConsistent now s (updates subject content payload base t e same is_read one p) c = c
  Rule-IsConsistent now s (removes subject content base same is_read four) c = c
  Rule-IsConsistent now s (counts subject content payload ids base is_read) c = c
  Rule-IsConsistent now s (publishes t payload p) c = c
  Rule-IsConsistent now s (stores t) c = insert-IsConsistent t s.track_map c
  Rule-IsConsistent now s (records t h p) c = c
  Rule-IsConsistent now s (record_panics t) c = c
  Rule-IsConsistent now s (sends h room) c = c
  Rule-IsConsistent now s (waits h full) c = c
  Rule-IsConsistent now s (ends ks) c = c
  Rule-IsConsistent now s (publishes_removal k ks p) c = c
  Rule-IsConsistent now s (unmaps k ks) c = delete-IsConsistent k s.track_map c
  Rule-IsConsistent now s (forgets k ks db) c = c
  Rule-IsConsistent now s (lists ids ks payload) c = c
  Rule-IsConsistent now s (drops ks payload) c = remove_missing-Keeps w ks s c
  Rule-IsConsistent now s (announces payload p) c = c

  advance-IsConsistent :
      (now : ℤ) (h : Handler) (s : Service Db)
      → IsConsistent s.track_map
      → IsConsistent (final (advance w now h s)).track_map
  advance-IsConsistent now h s c = Rule-IsConsistent now s (advance-Rule w now s h) c

  went-IsConsistent :
      (rest : List Handler) (sys sys' : System Db) (o : Outcome (Service Db) (Option Handler))
      → went rest sys o ≡ some sys'
      → IsConsistent (final o).track_map
      → IsConsistent sys'.service.track_map
  unfolding went
  went-IsConsistent rest sys sys' (returned next s) e c =
      let same : s ≡ sys'.service = cc in rw (← same) c
  went-IsConsistent rest sys sys' (panicked s) e c =
      let same : s ≡ sys'.service = cc in rw (← same) c
  went-IsConsistent rest sys sys' (blocked s) e c = absurd (ground arith)

  run_handler-IsConsistent :
      (now : ℤ) (o : Option (Handler × List Handler)) (sys sys' : System Db)
      → run_handler w now o sys ≡ some sys'
      → IsConsistent sys.service.track_map
      → IsConsistent sys'.service.track_map
  unfolding run_handler
  run_handler-IsConsistent now none sys sys' e c = absurd (ground arith)
  run_handler-IsConsistent now (some (h, rest)) sys sys' e c =
      went-IsConsistent rest sys sys' (advance w now h sys.service) e
        (advance-IsConsistent now h sys.service c)

module _ {Db : Type 0} (w : World Db) (batch_size : ℕ) where
  map-write :
      (e : Event) (sys : System Db)
      → (write w batch_size e sys).service.track_map ≡ sys.service.track_map
  unfolding write
  map-write e sys = refl

  map-take_row :
      (q : List TrackHistory) (sys sys' : System Db)
      → take_row w batch_size q sys ≡ some sys'
      → sys'.service.track_map ≡ sys.service.track_map
  unfolding take_row
  map-take_row [] sys sys' e = ground arith
  map-take_row (h ∷ hs) sys sys' e =
      let left = record sys { service = record sys.service { history_ch = hs } } in
      let same : write w batch_size (received h) left ≡ sys' = cc in
      rw (← same) (map-write (received h) left)

  happen_alive-IsConsistent :
      (e : Happening) (sys sys' : System Db)
      → happen_alive w batch_size e sys ≡ some sys'
      → IsConsistent sys.service.track_map
      → IsConsistent sys'.service.track_map
  unfolding happen_alive
  happen_alive-IsConsistent (delivers subject content) sys sys' h c =
      let same : sys.service ≡ sys'.service = cc in rw (← same) c
  happen_alive-IsConsistent (runs i now) sys sys' h c =
      run_handler-IsConsistent w now (take_out i sys.handlers) sys sys' h c
  happen_alive-IsConsistent takes sys sys' h c =
      rw (map-take_row sys.service.history_ch sys sys' h) c
  happen_alive-IsConsistent ticks sys sys' h c =
      let same : write w batch_size ticked sys ≡ sys' = cc in rw (← same, map-write ticked sys) c
  happen_alive-IsConsistent expires sys sys' h c =
      let same : write w batch_size expired sys ≡ sys' = cc in rw (← same, map-write expired sys) c

-- Whatever the interleaving of the handlers and the writer, also where a handler stands in the
-- middle, the track map has one entry for a key, no nil pointer, and each track under its own id.
pub run_system-IsConsistent :
    {Db : Type 0} (w : World Db) (batch_size : ℕ) (es : List Happening) (db : Db) (sys : System Db)
    → run_system w batch_size es (new_system db) ≡ some sys
    → IsConsistent sys.service.track_map
unfolding new_system new_service
run_system-IsConsistent w batch_size es db sys h =
    run_system-keeps w batch_size (λ s. IsConsistent s.service.track_map) es (new_system db) sys
      (happen_alive-IsConsistent w batch_size) h IsConsistent-empty
