-- ===== src/Tracks/Consistency.antt =====
-- The invariant of the track map, kept by every message (internal/service/track.go).
use go_template_aerospike.Prelude.{
  ℤ, pos, Bytes, eq_bytes, eqb_ℤ, eqb_ℤ_iff, Bool, true, false, Option, none, some, List, [], ◌∷◌,
  ◌≡◌, refl, arith, if◌then◌else◌, Map, lookup, insert, delete, lookup-delete, lookup-insert,
  insert-IsMap, delete-IsMap, IsMap, Exec, pure, ◌>>◌, Outcome, returned, panicked, blocked, final,
  continue, Option-cases, inl, inr, Bool-cases,
}
use go_template_aerospike.Track.{Track, TrackHistory}
use go_template_aerospike.Convert.{convert}
use go_template_aerospike.Service.{Any, BaseMessage, World, Service, send_history, new_service}
use go_template_aerospike.Tracks.{
  diff_array, delete_all, remove_tracks_from_map, create_track_history, remove_missing,
  find_track_by_id, apply_update, process_ipc_track_update, remove_each, process_ipc_track_remove,
  get_all_track_ids, apply_statistic, process_ipc_track_statistic, process_ipc_event,
  receive_nats_msg, track_subject, broadcast_track_info,
}
use go_template_aerospike.Convert.Behaviour.{Checked-cases}
use go_template_aerospike.Tracks.Statistic.{apply_statistic_lem}
use go_template_aerospike.Tracks.Update.{updated, update_lem}
use go_template_aerospike.Tracks.Removal.{removed, remove_each_stop, remove_each_go}

-- One entry for a key, no nil pointer, and each track under its own id.
pub record IsConsistent (m : Map (Option Track)) : Type 0 where
  pub unique : IsMap m
  pub own :
      (k : ℤ) (p : Option Track) → lookup k m ≡ some p → (t : Track) × (p ≡ some t) × (t.id ≡ k)

pub IsConsistent-empty : IsConsistent []
IsConsistent-empty = record { unique = tt; own = λ k p e. unfold lookup in cc }

pub insert-IsConsistent :
    (t : Track) (m : Map (Option Track)) → IsConsistent m → IsConsistent (insert t.id (some t) m)
insert-IsConsistent t m c = record {
  unique = insert-IsMap t.id (some t) m c.unique;
  own = λ k p e. elim (Bool-cases (eqb_ℤ t.id k)) [
    | inl same ↦ (t, ground (arith, lookup-insert t.id k (some t) m), (eqb_ℤ_iff t.id k).0 same)
    | inr other ↦ c.own k p (ground (arith, lookup-insert t.id k (some t) m))
  ];
}

pub delete-IsConsistent :
    (j : ℤ) (m : Map (Option Track)) → IsConsistent m → IsConsistent (delete j m)
delete-IsConsistent j m c = record {
  unique = delete-IsMap j m c.unique;
  own = λ k p e. c.own k p (ground (arith, lookup-delete j k m));
}

delete_all-IsConsistent :
    (ks : List ℤ) (m : Map (Option Track)) → IsConsistent m → IsConsistent (delete_all ks m)
unfolding delete_all
delete_all-IsConsistent [] m c = c
delete_all-IsConsistent (k ∷ ks) m c =
    delete_all-IsConsistent ks (delete k m) (delete-IsConsistent k m c)

final-continue :
    {S A B : Type 0} (b : B) (o : Outcome S A) → final (continue o (λ _. pure b)) ≡ final o
final-continue b (returned a s) = refl
final-continue b (panicked s) = refl
final-continue b (blocked s) = refl

module _ {Db : Type 0} (w : World Db) where
  -- A step keeps the invariant, however it ends.
  abbrev Keeps : {A : Type 0} → Exec (Service Db) A → Type 0
  Keeps m = (s : Service Db) → IsConsistent s.track_map → IsConsistent (final (m s)).track_map

  map-create_track_history :
      (now : ℤ) (t : Track) (s : Service Db)
      → (final (create_track_history now t s)).track_map ≡ s.track_map
  unfolding create_track_history send_history
  map-create_track_history now t s = ground arith

  update-Keeps : (now : ℤ) (detail : Option Any) → Keeps (process_ipc_track_update w now detail)
  update-Keeps now detail s c =
      elim (Checked-cases (convert w.fpu (some (w.unmarshal_track_message detail)))) [
        | inl p ↦ unfold process_ipc_track_update in rw p c
        | inr (r, p) ↦ elim (Option-cases (w.marshal_track r.0)) [
          | inl fails ↦ unfold process_ipc_track_update apply_update in rw (p, fails) c
          | inr (payload, m) ↦ rw (update_lem w now detail r.0 r.1 payload s p m) (
              rw (map-create_track_history now r.0 (updated w r.0 payload s))
                (unfold updated in insert-IsConsistent r.0 s.track_map c))
        ]
      ]

  removed-IsConsistent :
      (k : ℤ) (payload : Bytes) (s : Service Db)
      → IsConsistent s.track_map
      → IsConsistent (removed w k payload s).track_map
  unfolding removed
  removed-IsConsistent k payload s c = delete-IsConsistent k s.track_map c

  remove_each-Keeps : (ks : List ℤ) → Keeps (remove_each w ks)
  remove_each-Keeps [] s c = unfold remove_each in c
  remove_each-Keeps (k ∷ ks) s c = elim (Option-cases (w.marshal_delete_track k)) [
    | inl fails ↦ rw (remove_each_stop w k ks s fails) c
    | inr (payload, m) ↦
        rw (remove_each_go w k ks payload s m)
          (remove_each-Keeps ks (removed w k payload s) (removed-IsConsistent k payload s c))
  ]

  pub remove_missing-Keeps : (ks : List ℤ) → Keeps (remove_missing ks)
  unfolding remove_missing remove_tracks_from_map
  remove_missing-Keeps [] s c = c
  remove_missing-Keeps (k ∷ ks) s c = delete_all-IsConsistent (k ∷ ks) s.track_map c

  apply_statistic-Keeps :
      (ids : List ℤ) (payload : Option Bytes) → Keeps (apply_statistic w ids payload)
  apply_statistic-Keeps ids none s c = unfold apply_statistic in c
  apply_statistic-Keeps ids (some payload) s c =
      rw (apply_statistic_lem w ids payload s)
        (remove_missing-Keeps (diff_array (get_all_track_ids w s) ids) s c)

  Keeps-if :
      {A : Type 0} (b : Bool) (m n : Exec (Service Db) A)
      → Keeps m
      → Keeps n
      → Keeps (if b then m else n)
  Keeps-if true m n km kn = km
  Keeps-if false m n km kn = kn

  event-Keeps : (now kind : ℤ) (detail : Option Any) → Keeps (process_ipc_event w now kind detail)
  unfolding process_ipc_event process_ipc_track_remove process_ipc_track_statistic
  event-Keeps now kind detail = Keeps-if (eqb_ℤ kind (pos 1)) _ _ (update-Keeps now detail) (
      Keeps-if (eqb_ℤ kind (pos 4)) _ _ (remove_each-Keeps (w.unmarshal_removed_tracks detail)) (
        Keeps-if (eqb_ℤ kind (pos 5)) _ _
          (apply_statistic-Keeps (w.unmarshal_track_statistics detail) _) (λ s c. c)))

  event_then-Keeps :
      (now kind : ℤ) (detail : Option Any)
      → Keeps (process_ipc_event w now kind detail >> pure false)
  event_then-Keeps now kind detail s c =
      rw (final-continue false (process_ipc_event w now kind detail s))
        (event-Keeps now kind detail s c)

  base-Keeps :
      (now : ℤ) (base : Option BaseMessage)
      → Keeps (elim base [
        | none ↦ pure true
        | some base ↦ process_ipc_event w now base.message_type base.message_detail >> pure false
      ])
  base-Keeps now none s c = c
  base-Keeps now (some base) s c = event_then-Keeps now base.message_type base.message_detail s c

  receive-Keeps :
      (now : ℤ) (subject content : Bytes) → Keeps (receive_nats_msg w now subject content)
  unfolding receive_nats_msg
  receive-Keeps now subject content =
      Keeps-if (eq_bytes subject track_subject) _ _
        (base-Keeps now (w.unmarshal_base_message content)) (λ s c. c)

  -- What happens to the service: a message is handled, to its end or to where it panics or waits;
  -- the tracks are broadcast; the writer of the history takes rows from the queue and changes the
  -- database.
  pub data Step : Service Db → Service Db → Type 0 where
    message :
        (now : ℤ) (subject content : Bytes) (s : Service Db)
        → Step s (final (receive_nats_msg w now subject content s))
    broadcast : (s : Service Db) → Step s (final (broadcast_track_info w s))
    drain :
        (s : Service Db) (queue : List TrackHistory) (db : Db)
        → Step s (record s { history_ch = queue; db = db })

  pub data Reach (start : Db) : Service Db → Type 0 where
    here : Reach start (new_service start)
    next : {s s' : Service Db} → Reach start s → Step s s' → Reach start s'

  Step-IsConsistent :
      {s s' : Service Db} → Step s s' → IsConsistent s.track_map → IsConsistent s'.track_map
  Step-IsConsistent (message now subject content s) c = receive-Keeps now subject content s c
  Step-IsConsistent (broadcast s) c = unfold broadcast_track_info in c
  Step-IsConsistent (drain s queue db) c = c

-- In every state that any messages, valid or not, can bring about, the map is consistent: one entry
-- for a key, no nil pointer, each track under its own id.
pub Reach-IsConsistent :
    {Db : Type 0} (w : World Db) {start : Db} {s : Service Db}
    → Reach w start s
    → IsConsistent s.track_map
Reach-IsConsistent w here = unfold new_service in IsConsistent-empty
Reach-IsConsistent w (next r st) = Step-IsConsistent w st (Reach-IsConsistent w r)

-- In every such state a track that is found by an id has that id.
pub Reach-id-find_track_by_id :
    {Db : Type 0} (w : World Db) {start : Db} {s : Service Db} (k : ℤ) (t : Track)
    → Reach w start s
    → find_track_by_id k s ≡ some t
    → t.id ≡ k
unfolding find_track_by_id
Reach-id-find_track_by_id w {s} k t r e = elim (Option-cases (lookup k s.track_map)) [
  | inl absent ↦ ground arith
  | inr (p, found) ↦ let (t', nonnil, same) = (Reach-IsConsistent w r).own k p found in ground arith
]
