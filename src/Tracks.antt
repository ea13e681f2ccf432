-- ===== src/Tracks.antt =====
-- The current tracks (internal/service/track.go, event_process.go): the handlers of the IPC
-- messages and the queries on the track map. A handler is an action on the service; log lines are
-- left out, and so are errors that the source only logs.
pub mod Keys
pub mod Statistic
pub mod Queries
pub mod Update
pub mod Removal
pub mod Consistency
use go_template_aerospike.Prelude.{
  ℤ, pos, Bytes, text, eq_bytes, eqb_ℤ, Bool, true, false, any, Option, none, some, List, [], ◌∷◌,
  ◌++◌, Exec, Outcome, returned, pure, gets, lift, continue, ◌>>=◌, ◌>>◌, if◌then◌else◌, Map,
  lookup, insert, delete, keys, Checked, value, and_then, deref,
}
use go_template_aerospike.Track.{Track, TrackRow}
use go_template_aerospike.Convert.{convert}
use go_template_aerospike.History.{history_of, delete_track_history}
use go_template_aerospike.Service.{Any, World, Service, publish_event, send_history, send_track}

-- `config.TRACK_SUBJECT`
abbrev pub track_subject : Bytes
track_subject = text "ipc-track"

-- `diffArray`: the items of `a` that are not in `b`, in the order of `a`.
unfoldable pub diff_array : List ℤ → List ℤ → List ℤ
diff_array [] b = []
diff_array (x ∷ a) b = let rest = diff_array a b in if any (eqb_ℤ x) b then rest else x ∷ rest

-- The loop of `removeTracksFromMap`.
unfoldable pub delete_all : List ℤ → Map (Option Track) → Map (Option Track)
delete_all [] m = m
delete_all (k ∷ ks) m = delete_all ks (delete k m)

-- The loop of `FindTrackAll` and `broadcastTrackInfo`: a nil pointer is left out.
unfoldable pub tracks_at : List ℤ → Map (Option Track) → List Track
tracks_at [] m = []
tracks_at (k ∷ ks) m =
    let rest = tracks_at ks m in
    elim (lookup k m) [ none ↦ rest | some p ↦ elim p [ none ↦ rest | some t ↦ t ∷ rest ] ]

-- `s.trackMap[id]` is nil for a key that is not there.
abbrev pub flatten : Option (Option Track) → Option Track
flatten none = none
flatten (some p) = p

-- The row that `createTrackInfo` queues; its times are not set.
unfoldable pub row_of : Track → Checked TrackRow
row_of t = and_then (deref t.aircraft_type) λ aircraft_type.
    and_then (deref t.identification) λ identification. value (record {
      track_id = t.id;
      track_number = t.track_number;
      altitude = t.altitude;
      latitude = t.latitude;
      longitude = t.longitude;
      aircraft_type = aircraft_type;
      identification = identification;
      quantity = t.quantity;
      model = t.model;
      velocity = t.velocity;
      heading = t.heading;
      quality = t.quality;
      mode3a = t.mode3a;
      created_at = pos 0;
      updated_at = pos 0;
    })

module _ {Db : Type 0} where
  unfoldable pub update_track_to_map : Track → Exec (Service Db) (Unit {0})
  unfolding insert
  update_track_to_map t s = returned tt (record s { track_map = insert t.id (some t) s.track_map })

  unfoldable pub remove_track_from_map : ℤ → Exec (Service Db) (Unit {0})
  remove_track_from_map k s = returned tt (record s { track_map = delete k s.track_map })

  unfoldable pub remove_tracks_from_map : List ℤ → Exec (Service Db) (Unit {0})
  remove_tracks_from_map ks s = returned tt (record s { track_map = delete_all ks s.track_map })

  unfoldable pub create_track_info : Track → Exec (Service Db) (Unit {0})
  create_track_info t = do row ← lift (row_of t); send_track row

  -- `now` is what `time.Now().UnixMilli()` returns.
  unfoldable pub create_track_history : ℤ → Track → Exec (Service Db) (Unit {0})
  create_track_history now t = do h ← lift (history_of now t); send_history h

  unfoldable pub remove_missing : List ℤ → Exec (Service Db) (Unit {0})
  remove_missing [] = pure tt
  remove_missing (k ∷ ks) = remove_tracks_from_map (k ∷ ks)

  unfoldable pub find_track_by_id : ℤ → Service Db → Option Track
  find_track_by_id k s = flatten (lookup k s.track_map)

module _ {Db : Type 0} (w : World Db) where
  -- The error of `DeleteTrackHistory` is not read.
  unfoldable pub forget_history : ℤ → Exec (Service Db) (Unit {0})
  forget_history k s =
      let (_, db') = delete_track_history w.client w.namespace k s.db in
      returned tt (record s { db = db' })

  -- What `processIpcTrackUpdate` does with the track and its encoding. The conversion's error is not
  -- tested, and that of the publication only logged.
  unfoldable pub apply_update : ℤ → Track → Option Bytes → Exec (Service Db) (Unit {0})
  apply_update now t none = pure tt
  apply_update now t (some payload) = do
    publish_event w payload (text "track.update")
    update_track_to_map t
    create_track_history now t

  unfoldable pub process_ipc_track_update : ℤ → Option Any → Exec (Service Db) (Unit {0})
  process_ipc_track_update now detail = do
    converted ← lift (convert w.fpu (some (w.unmarshal_track_message detail)))
    apply_update now converted.0 (w.marshal_track converted.0)

  -- One round of the loop of `processIpcTrackRemove`, after the encoding.
  unfoldable pub remove_track : ℤ → Bytes → Exec (Service Db) (Unit {0})
  remove_track k payload = do
    publish_event w payload (text "track.delete")
    remove_track_from_map k
    forget_history k

  -- An encoding that fails returns from the handler.
  unfoldable pub remove_each : List ℤ → Exec (Service Db) (Unit {0})
  remove_each [] s = returned tt s
  remove_each (k ∷ ks) s = elim (w.marshal_delete_track k) [
    | none ↦ returned tt s
    | some payload ↦ continue (remove_track k payload s) (λ _. remove_each ks)
  ]

  unfoldable pub process_ipc_track_remove : Option Any → Exec (Service Db) (Unit {0})
  process_ipc_track_remove detail = remove_each (w.unmarshal_removed_tracks detail)

  -- `range` visits the keys in an order that Go leaves open.
  unfoldable pub get_all_track_ids : Service Db → List ℤ
  get_all_track_ids s = w.range_order (keys s.track_map)

  unfoldable pub apply_statistic : List ℤ → Option Bytes → Exec (Service Db) (Unit {0})
  apply_statistic ids none = pure tt
  apply_statistic ids (some payload) = do
    present ← gets get_all_track_ids
    remove_missing (diff_array present ids)
    publish_event w payload (text "track.all")
    pure tt

  unfoldable pub process_ipc_track_statistic : Option Any → Exec (Service Db) (Unit {0})
  process_ipc_track_statistic detail =
      apply_statistic (w.unmarshal_track_statistics detail)
        (w.marshal_list_current_tracks (w.unmarshal_track_statistics detail))

  -- The message types are 1, 4 and 5; any other is ignored.
  unfoldable pub process_ipc_event : ℤ → ℤ → Option Any → Exec (Service Db) (Unit {0})
  process_ipc_event now kind detail =
      if eqb_ℤ kind (pos 1)
      then process_ipc_track_update now detail
      else if eqb_ℤ kind (pos 4)
      then process_ipc_track_remove detail
      else if eqb_ℤ kind (pos 5)
      then process_ipc_track_statistic detail
      else pure tt

  -- The result is whether the message was refused as no `BaseMessage`.
  unfoldable pub receive_nats_msg : ℤ → Bytes → Bytes → Exec (Service Db) Bool
  receive_nats_msg now subject content =
      if eq_bytes subject track_subject
      then elim (w.unmarshal_base_message content) [
        | none ↦ pure true
        | some base ↦ process_ipc_event now base.message_type base.message_detail >> pure false
      ]
      else pure false

  unfoldable pub find_track_all : Service Db → List Track
  find_track_all s = tracks_at (get_all_track_ids s) s.track_map

  -- The job of `AddBroadcastTrackWorker`, for every second; nothing starts its scheduler.
  unfoldable pub broadcast_track_info : Exec (Service Db) (Unit {0})
  broadcast_track_info s =
      returned tt
        (record s { broadcasts = s.broadcasts ++ w.marshal_tracks (find_track_all s) ∷ [] })
