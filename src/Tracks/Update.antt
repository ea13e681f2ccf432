-- ===== src/Tracks/Update.antt =====
-- `processIpcTrackUpdate` (internal/service/track.go): what a track message does to the service.
use go_template_aerospike.Prelude.{
  ◌≤◌, ◌<◌, ℤ, pos, Bytes, text, eqb_ℤ, eqb_ℤ_refl, Option, none, some, [], ◌∷◌, ◌++◌, ◌≡◌, refl,
  ◌∙◌, arith, length, if◌then◌else◌, lookup, insert, lookup-insert, returned, panicked, blocked,
  value,
}
use go_template_aerospike.Track.{Track, TrackHistory}
use go_template_aerospike.Convert.{ConvertError, convert, or_keep}
use go_template_aerospike.Convert.Behaviour.{identification_of, identification-convert, id-convert}
use go_template_aerospike.History.{history_of}
use go_template_aerospike.Service.{
  Any, World, Service, publish_event_lem, taken, send_history, channel_capacity,
}
use go_template_aerospike.Tracks.{
  update_track_to_map, create_track_history, apply_update, process_ipc_track_update,
}

module _ {Db : Type 0} (w : World Db) where
  -- The service after the publication and the update of the map.
  unfoldable pub updated : Track → Bytes → Service Db → Service Db
  updated t payload s = record s {
    published = taken w payload (text "track.update") s.published;
    track_map = insert t.id (some t) s.track_map;
  }

  pub apply_update_lem :
      (now : ℤ) (t : Track) (payload : Bytes) (s : Service Db)
      → apply_update w now t (some payload) s ≡ create_track_history now t (updated t payload s)
  unfolding apply_update updated update_track_to_map
  apply_update_lem now t payload s = rw (publish_event_lem w payload (text "track.update") s) refl

  pub update_lem :
      (now : ℤ) (detail : Option Any) (t : Track) (e : Option ConvertError) (payload : Bytes)
      (s : Service Db)
      → convert w.fpu (some (w.unmarshal_track_message detail)) ≡ value (t, e)
      → w.marshal_track t ≡ some payload
      → process_ipc_track_update w now detail s ≡ create_track_history now t (updated t payload s)
  unfolding process_ipc_track_update
  update_lem now detail t e payload s c m = rw (c, m) (apply_update_lem now t payload s)

  create_track_history_panics :
      (now : ℤ) (t : Track) (s : Service Db)
      → t.identification ≡ none
      → create_track_history now t s ≡ panicked s
  unfolding create_track_history history_of
  create_track_history_panics now t s h = ground arith

-- The history row of a track at a time.
abbrev pub row_at : ℤ → Track → ℤ → TrackHistory
row_at now t identification = record {
  track_id = t.id;
  track_number = t.track_number;
  altitude = t.altitude;
  latitude = t.latitude;
  longitude = t.longitude;
  heading = t.heading;
  velocity = t.velocity;
  identification = identification;
  created_at = now;
}

-- A message that the conversion takes without a panic, with an id, a track info and an aircraft
-- info, whose track can be encoded: if the history channel has room, the handler returns, the map
-- holds the track at its id and every other entry as before, and one row of the track at the
-- current time is queued behind the others. This holds also where the conversion returned an error.
pub process_ipc_track_update_lem :
    {Db : Type 0} (w : World Db) (now : ℤ) (detail : Option Any) (t : Track)
    (e : Option ConvertError) (payload : Bytes) (i : ℤ) (s : Service Db)
    → convert w.fpu (some (w.unmarshal_track_message detail)) ≡ value (t, e)
    → identification_of (w.unmarshal_track_message detail) ≡ some i
    → w.marshal_track t ≡ some payload
    → length s.history_ch < channel_capacity
    → (s' : Service Db) × (process_ipc_track_update w now detail s ≡ returned tt s')
      × ((k : ℤ)
          → lookup k s'.track_map ≡ (if eqb_ℤ t.id k then some (some t) else lookup k s.track_map))
      × (s'.history_ch ≡ s.history_ch ++ row_at now t i ∷ [])
unfolding create_track_history history_of send_history updated
process_ipc_track_update_lem w now detail t e payload i s c hi m room = (
  record s {
    published = taken w payload (text "track.update") s.published;
    track_map = insert t.id (some t) s.track_map;
    history_ch = s.history_ch ++ row_at now t i ∷ [];
  },
  rw (update_lem w now detail t e payload s c m)
      (ground (arith, identification-convert w.fpu (w.unmarshal_track_message detail) t e c)),
  λ k. lookup-insert t.id k (some t) s.track_map,
  refl,
)

-- With the history channel full, the same message leaves its goroutine waiting in the send, after
-- the map was updated.
pub process_ipc_track_update_full :
    {Db : Type 0} (w : World Db) (now : ℤ) (detail : Option Any) (t : Track)
    (e : Option ConvertError) (payload : Bytes) (i : ℤ) (s : Service Db)
    → convert w.fpu (some (w.unmarshal_track_message detail)) ≡ value (t, e)
    → identification_of (w.unmarshal_track_message detail) ≡ some i
    → w.marshal_track t ≡ some payload
    → channel_capacity ≤ length s.history_ch
    → process_ipc_track_update w now detail s ≡ blocked (updated w t payload s)
unfolding create_track_history history_of send_history
process_ipc_track_update_full w now detail t e payload i s c hi m full =
    rw (update_lem w now detail t e payload s c m) (
      unfold updated in
      ground (arith, identification-convert w.fpu (w.unmarshal_track_message detail) t e c))

-- A message that the conversion takes without a panic, that lacks its id, its track info or its aircraft
-- info, and whose track can be encoded, panics the handler: the conversion's error is not tested, and the
-- history row dereferences an identification that is nil. The incomplete track stays in the map, under the
-- message's id or 0, and no row is queued.
pub process_ipc_track_update_panics :
    {Db : Type 0} (w : World Db) (now : ℤ) (detail : Option Any) (t : Track)
    (e : Option ConvertError) (payload : Bytes) (s : Service Db)
    → convert w.fpu (some (w.unmarshal_track_message detail)) ≡ value (t, e)
    → w.marshal_track t ≡ some payload
    → identification_of (w.unmarshal_track_message detail) ≡ none
    → (s' : Service Db) × (process_ipc_track_update w now detail s ≡ panicked s')
      × (lookup (or_keep (w.unmarshal_track_message detail).id (pos 0)) s'.track_map
          ≡ some (some t))
      × (t.identification ≡ none)
      × (s'.history_ch ≡ s.history_ch)
process_ipc_track_update_panics w now detail t e payload s c m none_given =
    let i = identification-convert w.fpu (w.unmarshal_track_message detail) t e c in
    (
      updated w t payload s,
      rw (update_lem w now detail t e payload s c m)
          (create_track_history_panics w now t (updated w t payload s) (i ∙ none_given)),
      unfold updated in
          ground (
            arith,
            lookup-insert t.id t.id (some t) s.track_map,
            eqb_ℤ_refl t.id,
            id-convert w.fpu (w.unmarshal_track_message detail) t e c,
          ),
      i ∙ none_given,
      unfold updated in refl,
    )
