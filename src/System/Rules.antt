-- ===== src/System/Rules.antt =====
-- The steps of a handler as a relation: what each can do to the service, and where the handler stands
-- then (internal/service/event_process.go, track.go, track_history.go).
use go_template_aerospike.Prelude.{
  ◌≤◌, ◌<◌, ℤ, pos, Bytes, text, eq_bytes, eq_bytes_iff, eqb_ℤ, eqb_ℤ_iff, Option, none, some, List,
  [], ◌∷◌, ◌++◌, ◌≡◌, arith, Outcome, returned, panicked, blocked, final, lift, value, ltb, length,
  insert, delete, Option-cases, Bool-cases, inl, inr,
}
use go_template_aerospike.Track.{Track, TrackHistory}
use go_template_aerospike.Convert.{ConvertError, convert}
use go_template_aerospike.Convert.Behaviour.{Checked-cases}
use go_template_aerospike.History.{history_of}
use go_template_aerospike.Service.{
  BaseMessage, World, Service, Publication, publish_event_lem, send_history, channel_capacity,
}
use go_template_aerospike.Tracks.{
  track_subject, update_track_to_map, remove_track_from_map, forget_history, remove_missing,
}
use go_template_aerospike.Tracks.Statistic.{remove_missing_lem}
use go_template_aerospike.System.{
  Handler, arrived, publishing, storing, recording, sending, removing, unmapping, forgetting,
  listing, dropping, announcing, encoded, dispatch, advance,
}

pub data Rule {Db : Type 0} (w : World Db) (now : ℤ) (s : Service Db)
    : Handler → Outcome (Service Db) (Option Handler) → Type 0 where
  -- another subject, no base message, another type, or a track that cannot be encoded
  ignores : (subject content : Bytes) → Rule w now s (arrived subject content) (returned none s)
  convert_panics : (subject content : Bytes) → Rule w now s (arrived subject content) (panicked s)
  updates :
      (subject content payload : Bytes) (base : BaseMessage) (t : Track) (e : Option ConvertError)
      → subject ≡ track_subject
      → w.unmarshal_base_message content ≡ some base
      → base.message_type ≡ pos 1
      → convert w.fpu (some (w.unmarshal_track_message base.message_detail)) ≡ value (t, e)
      → Rule w now s (arrived subject content) (returned (some (publishing t payload)) s)
  removes :
      (subject content : Bytes) (base : BaseMessage)
      → subject ≡ track_subject
      → w.unmarshal_base_message content ≡ some base
      → base.message_type ≡ pos 4
      → Rule w now s
          (arrived subject content)
          (returned (some (removing (w.unmarshal_removed_tracks base.message_detail))) s)
  counts :
      (subject content payload : Bytes) (ids : List ℤ) (base : BaseMessage)
      → w.unmarshal_base_message content ≡ some base
      → Rule w now s (arrived subject content) (returned (some (listing ids payload)) s)
  publishes :
      (t : Track) (payload : Bytes) (p : List Publication)
      → Rule w now s
          (publishing t payload)
          (returned (some (storing t)) (record s { published = p }))
  stores :
      (t : Track)
      → Rule w now s (storing t) (
          returned (some (recording t)) (record s { track_map = insert t.id (some t) s.track_map }))
  records :
      (t : Track) (h : TrackHistory)
      → history_of now t ≡ value h
      → Rule w now s (recording t) (returned (some (sending h)) s)
  record_panics : (t : Track) → Rule w now s (recording t) (panicked s)
  sends :
      (h : TrackHistory)
      → length s.history_ch < channel_capacity
      → Rule w now s (sending h) (returned none (record s { history_ch = s.history_ch ++ h ∷ [] }))
  waits :
      (h : TrackHistory)
      → channel_capacity ≤ length s.history_ch
      → Rule w now s (sending h) (blocked s)
  -- no id is left, or the next one's message cannot be encoded
  ends : (ks : List ℤ) → Rule w now s (removing ks) (returned none s)
  publishes_removal :
      (k : ℤ) (ks : List ℤ) (p : List Publication)
      → Rule w now s
          (removing (k ∷ ks))
          (returned (some (unmapping k ks)) (record s { published = p }))
  unmaps :
      (k : ℤ) (ks : List ℤ)
      → Rule w now s
          (unmapping k ks)
          (returned (some (forgetting k ks)) (record s { track_map = delete k s.track_map }))
  forgets :
      (k : ℤ) (ks : List ℤ) (db : Db)
      → Rule w now s (forgetting k ks) (returned (some (removing ks)) (record s { db = db }))
  lists :
      (ids ks : List ℤ) (payload : Bytes)
      → Rule w now s (listing ids payload) (returned (some (dropping ks payload)) s)
  drops :
      (ks : List ℤ) (payload : Bytes)
      → Rule w now s (dropping ks payload) (
          returned
            (some (announcing payload))
            (record s { track_map = (final (remove_missing ks s)).track_map }))
  announces :
      (payload : Bytes) (p : List Publication)
      → Rule w now s (announcing payload) (returned none (record s { published = p }))

module _ {Db : Type 0} (w : World Db) (now : ℤ) (s : Service Db) where
  encoded_update :
      (subject content : Bytes) (base : BaseMessage) (t : Track) (e : Option ConvertError)
      (o : Option Bytes)
      → subject ≡ track_subject
      → w.unmarshal_base_message content ≡ some base
      → base.message_type ≡ pos 1
      → convert w.fpu (some (w.unmarshal_track_message base.message_detail)) ≡ value (t, e)
      → Rule w now s (arrived subject content) (returned (encoded (publishing t) o) s)
  encoded_update subject content base t e none same is_read one p = ignores subject content
  encoded_update subject content base t e (some payload) same is_read one p =
      updates subject content payload base t e same is_read one p

  encoded_count :
      (subject content : Bytes) (base : BaseMessage) (ids : List ℤ) (o : Option Bytes)
      → w.unmarshal_base_message content ≡ some base
      → Rule w now s (arrived subject content) (returned (encoded (listing ids) o) s)
  encoded_count subject content base ids none is_read = ignores subject content
  encoded_count subject content base ids (some payload) is_read =
      counts subject content payload ids base is_read

  dispatch-Rule :
      (subject content : Bytes) (base : BaseMessage)
      → subject ≡ track_subject
      → w.unmarshal_base_message content ≡ some base
      → Rule w now s
          (arrived subject content)
          (lift (dispatch w base.message_type base.message_detail) s)
  unfolding dispatch
  dispatch-Rule subject content base same is_read =
      elim (Bool-cases (eqb_ℤ base.message_type (pos 1))) [
        | inl one ↦
            elim (Checked-cases
              (convert w.fpu (some (w.unmarshal_track_message base.message_detail)))) [
                | inl p ↦ rw (one, p) (convert_panics subject content)
                | inr ((t, e), p) ↦
                    rw (one, p)
                      (encoded_update subject content base t e (w.marshal_track t) same is_read
                        ((eqb_ℤ_iff base.message_type (pos 1)).0 one) p)
              ]
        | inr not_one ↦ elim (Bool-cases (eqb_ℤ base.message_type (pos 4))) [
          | inl four ↦
              rw (not_one, four)
                (removes subject content base same is_read
                  ((eqb_ℤ_iff base.message_type (pos 4)).0 four))
          | inr not_four ↦ elim (Bool-cases (eqb_ℤ base.message_type (pos 5))) [
            | inl five ↦
                rw (not_one, not_four, five)
                  (encoded_count subject content base
                    (w.unmarshal_track_statistics base.message_detail) _ is_read)
            | inr not_five ↦ rw (not_one, not_four, not_five) (ignores subject content)
          ]
        ]
      ]

  arrived-Rule :
      (subject content : Bytes)
      → Rule w now s (arrived subject content) (advance w now (arrived subject content) s)
  unfolding advance
  arrived-Rule subject content = elim (Bool-cases (eq_bytes subject track_subject)) [
    | inl same ↦ elim (Option-cases (w.unmarshal_base_message content)) [
      | inl refused ↦ rw (same, refused) (ignores subject content)
      | inr (base, is_read) ↦
          rw (same, is_read)
            (dispatch-Rule subject content base ((eq_bytes_iff subject track_subject).0 same)
              is_read)
    ]
    | inr different ↦ rw different (ignores subject content)
  ]

  sending-Rule : (h : TrackHistory) → Rule w now s (sending h) (advance w now (sending h) s)
  unfolding advance send_history
  sending-Rule h = elim (Bool-cases (ltb (length s.history_ch) channel_capacity)) [
    | inl room ↦ rw room (sends h (ground (arith, room)))
    | inr full ↦ rw full (waits h (ground (arith, full)))
  ]

  -- Every step follows a rule.
  pub advance-Rule : (h : Handler) → Rule w now s h (advance w now h s)
  unfolding advance update_track_to_map remove_track_from_map forget_history
  advance-Rule (arrived subject content) = arrived-Rule subject content
  advance-Rule (publishing t payload) =
      rw (publish_event_lem w payload (text "track.update") s) (publishes t payload _)
  advance-Rule (storing t) = stores t
  advance-Rule (recording t) = elim (Checked-cases (history_of now t)) [
    | inl p ↦ rw p (record_panics t)
    | inr (h, p) ↦ rw p (records t h p)
  ]
  advance-Rule (sending h) = sending-Rule h
  advance-Rule (removing []) = ends []
  advance-Rule (removing (k ∷ ks)) = elim (Option-cases (w.marshal_delete_track k)) [
    | inl fails ↦ rw (fails, advance) (ends (k ∷ ks))
    | inr (payload, m) ↦
        rw (m, advance, publish_event_lem w payload (text "track.delete") s)
          (publishes_removal k ks _)
  ]
  advance-Rule (unmapping k ks) = unmaps k ks
  advance-Rule (forgetting k ks) = forgets k ks _
  advance-Rule (listing ids payload) = lists ids _ payload
  advance-Rule (dropping ks payload) = rw (remove_missing_lem w ks s) (drops ks payload)
  advance-Rule (announcing payload) =
      rw (publish_event_lem w payload (text "track.all") s) (announces payload _)
