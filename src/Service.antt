-- ===== src/Service.antt =====
-- `MainService` (internal/service/main_service.go) and what it uses from outside. The mutex that
-- guards the track map makes each method of Tracks.antt on the map one step; the history channel is
-- the queue that Batch.antt drains.
use go_template_aerospike.Prelude.{
  ℕ, ℤ, Bytes, Option, none, some, List, [], ◌∷◌, ◌++◌, ◌≡◌, arith, Exec, returned, blocked, length,
  ltb, if◌then◌else◌, Map,
}
use go_template_aerospike.Track.{Fpu, Track, TrackRow, TrackHistory}
use go_template_aerospike.Ipc.{TrackMessage}
use go_template_aerospike.Aerospike.{Client}

-- A Go error, by its message.
abbrev pub Error : Type 0
Error = Bytes

-- `*anypb.Any`
pub record Any : Type 0 where
  pub type_url : Bytes
  pub content : Bytes

pub record BaseMessage : Type 0 where
  pub message_type : ℤ
  pub message_detail : Option Any

-- A message handed to the NATS connection.
pub record Publication : Type 0 where
  pub subject : Bytes
  pub payload : Bytes

-- What the service uses from outside: the protobuf codec (`none` is an error of Marshal; what an
-- Unmarshal leaves in its target, whose error is ignored), the NATS connection, which may refuse a
-- message, the order in which `range` visits the keys of a map, and the database.
pub record World (Db : Type 0) : Type 0 where
  pub fpu : Fpu
  pub marshal_track : Track → Option Bytes
  pub marshal_delete_track : ℤ → Option Bytes
  pub marshal_list_current_tracks : List ℤ → Option Bytes
  pub unmarshal_base_message : Bytes → Option BaseMessage
  pub unmarshal_track_message : Option Any → TrackMessage
  pub unmarshal_removed_tracks : Option Any → List ℤ
  pub unmarshal_track_statistics : Option Any → List ℤ
  -- `json.Marshal` of the tracks, whose error is ignored
  pub marshal_tracks : List Track → Bytes
  pub publish : List Publication → Publication → Option Error
  pub range_order : List ℤ → List ℤ
  pub client : Client Db
  pub namespace : Bytes

pub record Service (Db : Type 0) : Type 0 where
  pub track_map : Map (Option Track)
  -- the messages that the connection took, oldest first
  pub published : List Publication
  -- the texts that were broadcast on the socket, oldest first
  pub broadcasts : List Bytes
  -- the channels, oldest first
  pub history_ch : List TrackHistory
  pub track_ch : List TrackRow
  pub db : Db

-- The capacity of both channels.
abbrev pub channel_capacity : ℕ
channel_capacity = 10000

-- `New`: an empty map, and channels with nothing in them.
unfoldable pub new_service : {Db : Type 0} → Db → Service Db
new_service db = record {
  track_map = [];
  published = [];
  broadcasts = [];
  history_ch = [];
  track_ch = [];
  db = db;
}

module _ {Db : Type 0} (w : World Db) where
  abbrev record_publication : Publication → Service Db → Service Db
  record_publication p s = record s { published = s.published ++ p ∷ [] }

  -- `publishEvent`
  unfoldable pub publish_event : Bytes → Bytes → Exec (Service Db) (Option Error)
  publish_event payload routing_key s =
      let p : Publication = record { subject = routing_key; payload = payload } in
      elim (w.publish s.published p) [
        | none ↦ returned none (record_publication p s)
        | some e ↦ returned (some e) s
      ]

-- A send waits while the channel is full.
unfoldable pub send_history : {Db : Type 0} → TrackHistory → Exec (Service Db) (Unit {0})
send_history h s =
    if ltb (length s.history_ch) channel_capacity
    then returned tt (record s { history_ch = s.history_ch ++ h ∷ [] })
    else blocked s

unfoldable pub send_track : {Db : Type 0} → TrackRow → Exec (Service Db) (Unit {0})
send_track row s =
    if ltb (length s.track_ch) channel_capacity
    then returned tt (record s { track_ch = s.track_ch ++ row ∷ [] })
    else blocked s

module _ {Db : Type 0} (w : World Db) where
  -- The messages that the connection has taken after one more was handed to it.
  unfoldable pub taken : Bytes → Bytes → List Publication → List Publication
  taken payload routing_key before =
      let p : Publication = record { subject = routing_key; payload = payload } in
      elim (w.publish before p) [ none ↦ before ++ p ∷ [] | some e ↦ before ]

  -- A publication changes nothing but the list of messages taken.
  pub publish_event_lem :
      (payload routing_key : Bytes) (s : Service Db)
      → publish_event w payload routing_key s
        ≡ returned
            (w.publish s.published (record { subject = routing_key; payload = payload }))
            (record s { published = taken payload routing_key s.published })
  unfolding publish_event taken
  publish_event_lem payload routing_key s = ground arith
