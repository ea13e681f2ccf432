-- ===== src/System/Courses.antt =====
-- Courses of events of the running service: the handler of an update, of a removal, and two handlers
-- next to each other (internal/service/track.go).
use go_template_aerospike.Prelude.{
  ℕ, ◌<◌, ℤ, pos, Bytes, text, false, Option, none, some, List, [], ◌∷◌, ◌++◌, ◌≡◌, refl, arith,
  returned, length, delete, value, take_out,
}
use go_template_aerospike.Track.{Track}
use go_template_aerospike.Convert.{ConvertError, convert}
use go_template_aerospike.History.{history_of}
use go_template_aerospike.Service.{
  Any, World, Service, publish_event_lem, taken, send_history, channel_capacity,
}
use go_template_aerospike.Tracks.{
  track_subject, update_track_to_map, remove_track_from_map, forget_history,
}
use go_template_aerospike.Tracks.Update.{updated, row_at}
use go_template_aerospike.Tracks.Removal.{removed}
use go_template_aerospike.Batch.{Batch}
use go_template_aerospike.System.{
  Handler, arrived, publishing, storing, recording, sending, removing, unmapping, forgetting,
  dispatch, advance, System, Happening, delivers, runs, still_there, went, run_handler,
  happen_alive, happen, run_system, run_cons,
}

-- A system that has not crashed.
abbrev pub alive : {Db : Type 0} → Service Db → Batch Db → List Handler → System Db
alive s b hs = record { service = s; handlers = hs; writer = b; crashed = false }

-- The first handler makes four steps.
abbrev pub four_steps : ℤ → List Happening
four_steps now = runs 0 now ∷ runs 0 now ∷ runs 0 now ∷ runs 0 now ∷ []

-- The content of an update message whose conversion gives the track, with the identification, and
-- whose track can be encoded.
pub record IsUpdate {Db : Type 0} (w : World Db) (content : Bytes) (t : Track) (payload : Bytes)
    (i : ℤ) : Type 0 where
  pub detail : Option Any
  pub error : Option ConvertError
  pub message :
      w.unmarshal_base_message content
      ≡ some (record { message_type = pos 1; message_detail = detail })
  pub converts : convert w.fpu (some (w.unmarshal_track_message detail)) ≡ value (t, error)
  pub encodes : w.marshal_track t ≡ some payload
  pub identified : t.identification ≡ some i

-- The content of a message that removes one track, and whose deletion message can be encoded.
pub record IsRemoval {Db : Type 0} (w : World Db) (content : Bytes) (k : ℤ) (payload : Bytes)
    : Type 0 where
  pub detail : Option Any
  pub message :
      w.unmarshal_base_message content
      ≡ some (record { message_type = pos 4; message_detail = detail })
  pub ids : w.unmarshal_removed_tracks detail ≡ k ∷ []
  pub encodes : w.marshal_delete_track k ≡ some payload

module _ {Db : Type 0} (w : World Db) (batch_size : ℕ) (b : Batch Db) where
  goes_first :
      (now : ℤ) (h : Handler) (rest : List Handler) (s s' : Service Db) (next : Option Handler)
      → advance w now h s ≡ returned next s'
      → happen w batch_size (runs 0 now) (alive s b (h ∷ rest))
        ≡ some (alive s' b (still_there next ++ rest))
  unfolding happen happen_alive run_handler went take_out
  goes_first now h rest s s' next e = rw e refl

  goes_second :
      (now : ℤ) (g h : Handler) (s s' : Service Db) (next : Option Handler)
      → advance w now h s ≡ returned next s'
      → happen w batch_size (runs 1 now) (alive s b (g ∷ h ∷ []))
        ≡ some (alive s' b (still_there next ++ g ∷ []))
  unfolding happen happen_alive run_handler went take_out
  goes_second now g h s s' next e = rw e refl

  delivered_next :
      (subject content : Bytes) (hs : List Handler) (s : Service Db)
      → happen w batch_size (delivers subject content) (alive s b hs)
        ≡ some (alive s b (hs ++ arrived subject content ∷ []))
  unfolding happen happen_alive
  delivered_next subject content hs s = refl

  -- The service after an update's handler has sent its row.
  abbrev pub recorded : ℤ → Track → ℤ → Bytes → Service Db → Service Db
  recorded now t i payload s = record (updated w t payload s) {
    history_ch = s.history_ch ++ row_at now t i ∷ [];
  }

  -- Whatever other handlers did meanwhile, the four steps of an update put its track into the map.
  pub update_runs :
      (now : ℤ) (t : Track) (i : ℤ) (payload : Bytes) (rest : List Handler) (s : Service Db)
      (es : List Happening) (sys' : System Db)
      → t.identification ≡ some i
      → length s.history_ch < channel_capacity
      → run_system w batch_size es (alive (recorded now t i payload s) b rest) ≡ some sys'
      → run_system w batch_size (four_steps now ++ es) (alive s b (publishing t payload ∷ rest))
        ≡ some sys'
  update_runs now t i payload rest s es sys' identified room after =
      let published = record s { published = taken w payload (text "track.update") s.published } in
      let stored = updated w t payload s in
      run_cons w batch_size _ _ _ _ sys'
        (goes_first now (publishing t payload) rest s published (some (storing t))
          (unfold advance in rw (publish_event_lem w payload (text "track.update") s) refl))
        (run_cons w batch_size _ _ _ _ sys'
          (goes_first now (storing t) rest published stored (some (recording t))
            (unfold advance update_track_to_map updated in refl))
          (run_cons w batch_size _ _ _ _ sys'
            (goes_first now (recording t) rest stored stored (some (sending (row_at now t i)))
              (unfold advance history_of in rw identified refl))
            (run_cons w batch_size _ _ _ _ sys'
              (goes_first now (sending (row_at now t i)) rest stored (recorded now t i payload s)
                none (unfold advance send_history updated in ground (arith, room)))
              after)))

  pub advance-IsUpdate :
      (now : ℤ) (content : Bytes) (t : Track) (payload : Bytes) (i : ℤ) (s : Service Db)
      → IsUpdate w content t payload i
      → advance w now (arrived track_subject content) s ≡ returned (some (publishing t payload)) s
  unfolding advance dispatch
  advance-IsUpdate now content t payload i s u = rw (u.message, advance, u.converts, u.encodes) refl

  pub advance-IsRemoval :
      (now : ℤ) (content : Bytes) (k : ℤ) (payload : Bytes) (s : Service Db)
      → IsRemoval w content k payload
      → advance w now (arrived track_subject content) s ≡ returned (some (removing (k ∷ []))) s
  unfolding advance dispatch
  advance-IsRemoval now content k payload s r = rw (r.message, advance, r.ids) refl

  -- The handler of a removal runs to its end before the next one goes on.
  pub removal_runs :
      (now : ℤ) (k : ℤ) (payload : Bytes) (rest : List Handler) (s : Service Db)
      (es : List Happening) (sys' : System Db)
      → w.marshal_delete_track k ≡ some payload
      → run_system w batch_size es (alive (removed w k payload s) b rest) ≡ some sys'
      → run_system w batch_size (four_steps now ++ es) (alive s b (removing (k ∷ []) ∷ rest))
        ≡ some sys'
  unfolding advance
  removal_runs now k payload rest s es sys' encodes after =
      let published = record s { published = taken w payload (text "track.delete") s.published } in
      let unmapped = record published { track_map = delete k s.track_map } in
      let gone = removed w k payload s in
      run_cons w batch_size _ _ _ _ sys'
        (goes_first now (removing (k ∷ [])) rest s published (some (unmapping k []))
          (rw (encodes, advance, publish_event_lem w payload (text "track.delete") s) refl))
        (run_cons w batch_size _ _ _ _ sys'
          (goes_first now (unmapping k []) rest published unmapped (some (forgetting k []))
            (unfold advance remove_track_from_map in refl))
          (run_cons w batch_size _ _ _ _ sys'
            (goes_first now (forgetting k []) rest unmapped gone (some (removing []))
              (unfold advance forget_history removed in refl))
            (run_cons w batch_size _ _ _ _ sys'
              (goes_first now (removing []) rest gone gone none (unfold advance in refl)) after)))

  -- Two messages are delivered, and the handler of each makes its first step.
  pub both_start :
      (now : ℤ) (c c' : Bytes) (h h' : Handler) (s : Service Db) (es : List Happening)
      (sys' : System Db)
      → advance w now (arrived track_subject c) s ≡ returned (some h) s
      → advance w now (arrived track_subject c') s ≡ returned (some h') s
      → run_system w batch_size es (alive s b (h' ∷ h ∷ [])) ≡ some sys'
      → run_system w batch_size
          (delivers track_subject c ∷ delivers track_subject c' ∷ runs 0 now ∷ runs 1 now ∷ es)
          (alive s b [])
        ≡ some sys'
  both_start now c c' h h' s es sys' e e' after =
      run_cons w batch_size _ _ _ _ sys' (delivered_next track_subject c [] s) (
        run_cons w batch_size _ _ _ _ sys'
          (delivered_next track_subject c' (arrived track_subject c ∷ []) s)
          (run_cons w batch_size _ _ _ _ sys'
            (goes_first now (arrived track_subject c) (arrived track_subject c' ∷ []) s s (some h)
              e)
            (run_cons w batch_size _ _ _ _ sys'
              (goes_second now h (arrived track_subject c') s s (some h') e') after)))
