-- ===== src/System/Quiet.antt =====
-- Handlers that leave the database alone (internal/service/track.go, track_history.go).
use go_template_aerospike.Prelude.{
  ℤ, pos, Option, some, ◌≡◌, ◌≢◌, refl, Outcome, returned, panicked, blocked, All,
}
use go_template_aerospike.Service.{BaseMessage, World, Service}
use go_template_aerospike.Tracks.{track_subject}
use go_template_aerospike.System.Rules.{
  Rule, ignores, convert_panics, updates, removes, counts, publishes, stores, records,
  record_panics, sends, waits, ends, publishes_removal, unmaps, forgets, lists, drops, announces,
  advance-Rule,
}
use go_template_aerospike.System.{
  Handler, arrived, publishing, storing, recording, sending, removing, unmapping, forgetting,
  listing, dropping, announcing, advance, still_there,
}
use go_template_aerospike.System.Trace.{Message}

module _ {Db : Type 0} (w : World Db) where
  -- The message, if it is read at all, is no removal.
  abbrev pub IsNoRemoval : Message → Type 0
  IsNoRemoval m =
      (base : BaseMessage)
      → m.0 ≡ track_subject
      → w.unmarshal_base_message m.1 ≡ some base
      → base.message_type ≢ pos 4

  -- The handler will not delete a history.
  abbrev pub IsHarmless : Handler → Type 0
  IsHarmless (arrived subject content) = IsNoRemoval (subject, content)
  IsHarmless (publishing t payload) = Unit
  IsHarmless (storing t) = Unit
  IsHarmless (recording t) = Unit
  IsHarmless (sending h) = Unit
  IsHarmless (removing ks) = ⊥
  IsHarmless (unmapping k ks) = ⊥
  IsHarmless (forgetting k ks) = ⊥
  IsHarmless (listing ids payload) = Unit
  IsHarmless (dropping ks payload) = Unit
  IsHarmless (announcing payload) = Unit

  -- The step leaves the database alone, and so will the next ones.
  abbrev pub IsQuiet : Service Db → Outcome (Service Db) (Option Handler) → Type 0
  IsQuiet s (returned next s') = (s'.db ≡ s.db) × All IsHarmless (still_there next)
  IsQuiet s (panicked s') = s'.db ≡ s.db
  IsQuiet s (blocked s') = Unit

  Rule-IsQuiet :
      (now : ℤ) (s : Service Db) {h : Handler} {o : Outcome (Service Db) (Option Handler)}
      → Rule w now s h o
      → IsHarmless h
      → IsQuiet s o
  Rule-IsQuiet now s (ignores subject content) q = (refl, tt)
  Rule-IsQuiet now s (convert_panics subject content) q = refl
  Rule-IsQuiet now s (updates subject content payload base t e same is_read one p) q =
      (refl, (tt, tt))
  Rule-IsQuiet now s (removes subject content base same is_read four) q =
      absurd (q base same is_read four)
  Rule-IsQuiet now s (counts subject content payload ids base is_read) q = (refl, (tt, tt))
  Rule-IsQuiet now s (publishes t payload p) q = (refl, (tt, tt))
  Rule-IsQuiet now s (stores t) q = (refl, (tt, tt))
  Rule-IsQuiet now s (records t h p) q = (refl, (tt, tt))
  Rule-IsQuiet now s (record_panics t) q = refl
  Rule-IsQuiet now s (sends h room) q = (refl, tt)
  Rule-IsQuiet now s (waits h full) q = tt
  Rule-IsQuiet now s (ends ks) q = absurd q
  Rule-IsQuiet now s (publishes_removal k ks p) q = absurd q
  Rule-IsQuiet now s (unmaps k ks) q = absurd q
  Rule-IsQuiet now s (forgets k ks db) q = absurd q
  Rule-IsQuiet now s (lists ids ks payload) q = (refl, (tt, tt))
  Rule-IsQuiet now s (drops ks payload) q = (refl, (tt, tt))
  Rule-IsQuiet now s (announces payload p) q = (refl, tt)

  pub advance-IsQuiet :
      (now : ℤ) (h : Handler) (s : Service Db) → IsHarmless h → IsQuiet s (advance w now h s)
  advance-IsQuiet now h s q = Rule-IsQuiet now s (advance-Rule w now s h) q
