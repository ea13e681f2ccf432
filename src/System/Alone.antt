-- ===== src/System/Alone.antt =====
-- A handler that nobody interrupts (internal/service/track.go, track_history.go).
use go_template_aerospike.Prelude.{
  ℕ, zero, suc, ℤ, Bytes, text, Option, none, some, List, [], ◌∷◌, ◌≡◌, refl, ap, Outcome, returned,
  panicked, blocked, pure, continue, final, ltb, length, delete, Option-cases, Bool-cases, inl, inr,
}
use go_template_aerospike.Track.{Track, TrackHistory}
use go_template_aerospike.Convert.Behaviour.{Checked-cases}
use go_template_aerospike.History.{history_of}
use go_template_aerospike.Service.{
  World, Service, publish_event_lem, taken, send_history, channel_capacity,
}
use go_template_aerospike.Tracks.{
  diff_array, update_track_to_map, remove_track_from_map, forget_history, create_track_history,
  apply_update, remove_each, get_all_track_ids, remove_missing, apply_statistic,
}
use go_template_aerospike.Tracks.Update.{updated, apply_update_lem}
use go_template_aerospike.Tracks.Statistic.{remove_missing_lem, apply_statistic_lem}
use go_template_aerospike.Tracks.Removal.{removed, remove_each_stop, remove_each_go}
use go_template_aerospike.System.{
  Handler, publishing, storing, recording, sending, removing, unmapping, forgetting, listing,
  dropping, announcing, advance,
}

module _ {Db : Type 0} where
  -- The handler returned, ended the process, waits in its send, or goes on.
  abbrev settle :
      Outcome (Service Db) (Option Handler)
      → (Handler → Service Db → Option (Outcome (Service Db) (Unit {0})))
      → Option (Outcome (Service Db) (Unit {0}))
  settle (returned none s) f = some (returned tt s)
  settle (returned (some h) s) f = f h s
  settle (panicked s) f = some (panicked s)
  settle (blocked s) f = some (blocked s)

  abbrev pub without_result :
      {A : Type 0} → Outcome (Service Db) A → Outcome (Service Db) (Unit {0})
  without_result o = continue o (λ _. pure tt)

module _ {Db : Type 0} (w : World Db) (now : ℤ) where
  -- A handler that nobody interrupts, for at most so many steps.
  unfoldable pub alone : ℕ → Handler → Service Db → Option (Outcome (Service Db) (Unit {0}))
  unfolding advance
  alone zero h s = none
  alone (suc n) h s = settle (advance w now h s) (alone n)

  abbrev pub Ends : Handler → Service Db → Outcome (Service Db) (Unit {0}) → Type 0
  Ends h s o = (n : ℕ) × (alone n h s ≡ some o)

  pub Ends-goes :
      (h h' : Handler) (s s' : Service Db) {o : Outcome (Service Db) (Unit {0})}
      → advance w now h s ≡ returned (some h') s'
      → Ends h' s' o
      → Ends h s o
  unfolding alone
  Ends-goes h h' s s' e (n, p) = (suc n, rw e p)

  pub Ends-returned :
      (h : Handler) (s s' : Service Db)
      → advance w now h s ≡ returned none s'
      → Ends h s (returned tt s')
  unfolding alone
  Ends-returned h s s' e = (1, rw e refl)

  pub Ends-panicked :
      (h : Handler) (s s' : Service Db) → advance w now h s ≡ panicked s' → Ends h s (panicked s')
  unfolding alone
  Ends-panicked h s s' e = (1, rw e refl)

  sending-Ends : (h : TrackHistory) (s : Service Db) → Ends (sending h) s (send_history h s)
  unfolding alone advance send_history
  sending-Ends h s = elim (Bool-cases (ltb (length s.history_ch) channel_capacity)) [
    | inl room ↦ (1, rw room refl)
    | inr full ↦ (1, rw full refl)
  ]

  recording-Ends :
      (t : Track) (s : Service Db) → Ends (recording t) s (create_track_history now t s)
  recording-Ends t s = elim (Checked-cases (history_of now t)) [
    | inl p ↦
        unfold create_track_history in
        rw p (Ends-panicked (recording t) s s (unfold advance in rw p refl))
    | inr (h, p) ↦
        unfold create_track_history in
        rw p
          (Ends-goes (recording t) (sending h) s s (unfold advance in rw p refl) (sending-Ends h s))
  ]

  pub publishing-Ends :
      (t : Track) (payload : Bytes) (s : Service Db)
      → Ends (publishing t payload) s (apply_update w now t (some payload) s)
  publishing-Ends t payload s =
      let published = record s { published = taken w payload (text "track.update") s.published } in
      rw (apply_update_lem w now t payload s) (
        Ends-goes (publishing t payload) (storing t) s published
          (unfold advance in rw (publish_event_lem w payload (text "track.update") s) refl)
          (Ends-goes (storing t) (recording t) published (updated w t payload s)
            (unfold advance update_track_to_map updated in refl)
            (recording-Ends t (updated w t payload s))))

  pub removing-Ends : (ks : List ℤ) (s : Service Db) → Ends (removing ks) s (remove_each w ks s)
  unfolding advance
  removing-Ends [] s =
      unfold remove_each in Ends-returned (removing []) s s (unfold advance in refl)
  removing-Ends (k ∷ ks) s = elim (Option-cases (w.marshal_delete_track k)) [
    | inl fails ↦
        rw (remove_each_stop w k ks s fails)
          (Ends-returned (removing (k ∷ ks)) s s (rw (fails, advance) refl))
    | inr (payload, m) ↦
        let published = record s {
          published = taken w payload (text "track.delete") s.published;
        } in
        let unmapped = record published { track_map = delete k s.track_map } in
        rw (remove_each_go w k ks payload s m) (
          Ends-goes (removing (k ∷ ks)) (unmapping k ks) s published
            (rw (m, advance, publish_event_lem w payload (text "track.delete") s) refl)
            (Ends-goes (unmapping k ks) (forgetting k ks) published unmapped
              (unfold advance remove_track_from_map in refl)
              (Ends-goes (forgetting k ks) (removing ks) unmapped (removed w k payload s)
                (unfold advance forget_history removed in refl)
                (removing-Ends ks (removed w k payload s)))))
  ]

  pub listing-Ends :
      (ids : List ℤ) (payload : Bytes) (s : Service Db)
      → Ends (listing ids payload) s (apply_statistic w ids (some payload) s)
  listing-Ends ids payload s =
      let gone = diff_array (get_all_track_ids w s) ids in
      let dropped = record s { track_map = (final (remove_missing gone s)).track_map } in
      Ends-goes (listing ids payload) (dropping gone payload) s s (unfold advance in refl) (
        Ends-goes (dropping gone payload) (announcing payload) s dropped
          (unfold advance in
            ap
              (λ (o : Outcome (Service Db) (Unit {0})).
                continue o (λ _. pure (some (announcing payload))))
              (remove_missing_lem w gone s))
          (rw (apply_statistic_lem w ids payload s) (
            Ends-returned (announcing payload) dropped _ (
              unfold advance in rw (publish_event_lem w payload (text "track.all") dropped) refl))))
