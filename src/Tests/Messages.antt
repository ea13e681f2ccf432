-- ===== src/Tests/Messages.antt =====
-- Track messages, and a service that gets them.
use go_template_aerospike.Prelude.{
  ◌+◌, pos, Bytes, text, show_int, Option, none, some, [], ◌∷◌, ◌≡◌, refl, arith, value,
}
use go_template_aerospike.Track.{Fpu, Track, zero_track}
use go_template_aerospike.Ipc.{
  AircraftInfo, TrackInfo, GeodeticPosition, PolarVelocity, SourceTrack, TrackMessage,
}
use go_template_aerospike.Convert.{convert, degrees_per_radian}
use go_template_aerospike.Convert.Behaviour.{IsSafe}
use go_template_aerospike.Aerospike.Memory.{Store, memory}
use go_template_aerospike.Service.{Any, BaseMessage, World, Service, new_service}

abbrev pub test_fpu : Fpu
test_fpu = record {
  mul32 = λ a b. a + b;
  mul64 = λ a b. a;
  int_of_float64 = λ a. pos a;
  int_of_float32 = λ a. pos a;
  widen = λ a. a;
  narrow = λ a. a;
  float32_of_int = λ a. 0;
}

abbrev pub jet : AircraftInfo
jet = record {
  mode_3a = some (text "1200");
  aircraft_type = some (pos 3);
  aircraft_count = none;
  model = some (text "Su-30");
  mode_serial = none;
  type1 = some (record { kind = some (pos 1); proba = some 90 });
}

abbrev pub jet_info : TrackInfo
jet_info = record {
  friend_foe_state = some (pos 2);
  aircraft_info = some jet;
  track_quality = some (pos 7);
}

abbrev pub place : GeodeticPosition
place = record { longitude = some 105; latitude = some 21; altitude = some 1000 }

abbrev pub speed : PolarVelocity
speed = record { speed = some 250; heading = none }

abbrev radar : SourceTrack
radar = record { id = some (pos 31); source_info = some (record { id = some (text "radar") }) }

abbrev pub jet_message : TrackMessage
jet_message = record {
  id = some (pos 42);
  track_info = some jet_info;
  geodetic_position = some place;
  polar_velocity = some speed;
  created_timestamp = some (pos 5);
  last_updated_timestamp = none;
  source_tracks = some radar ∷ [];
}

abbrev pub no_aircraft : TrackMessage
no_aircraft = record jet_message { track_info = some (record jet_info { aircraft_info = none }) }

abbrev pub any : Any
any = record { type_url = []; content = [] }

-- Messages that say nothing but which of three they are.
abbrev message_of : Option Any → TrackMessage
message_of none = no_aircraft
message_of (some a) = jet_message

abbrev bus : Bytes → Option BaseMessage
bus [] = none
bus (b ∷ bs) = some (record { message_type = pos b; message_detail = some any })

abbrev pub world : World Store
world = record {
  fpu = test_fpu;
  marshal_track = λ t. some (show_int t.id);
  marshal_delete_track = λ k. some (show_int k);
  marshal_list_current_tracks = λ ks. some [];
  unmarshal_base_message = bus;
  unmarshal_track_message = message_of;
  unmarshal_removed_tracks = λ a. pos 42 ∷ [];
  unmarshal_track_statistics = λ a. pos 7 ∷ [];
  marshal_tracks = λ ts. [];
  publish = λ taken p. none;
  range_order = λ ks. ks;
  client = memory;
  namespace = text "test";
}

abbrev pub start : Service Store
start = new_service []

abbrev pub jet_track : Track
jet_track = record zero_track {
  id = pos 42;
  track_number = pos 42;
  altitude = 1000;
  longitude = 105 + degrees_per_radian;
  latitude = 21 + degrees_per_radian;
  aircraft_type = some (pos 3);
  identification = some (pos 2);
  model = text "Su-30";
  velocity = 250;
  quality = pos 7;
  list_sources = record { source_name = text "radar"; track_number = text "31" } ∷ [];
  mode3a = text "1200";
  shape = text "Cánh Bằng_90";
  created_at = pos 5;
}

pub jet_message-IsSafe : IsSafe jet_message
jet_message-IsSafe = (
  (((λ z. ground arith), (λ z. ground arith)), tt),
  ((λ z. ground arith), (λ z. ground arith)),
  ((λ z. ground arith), (λ z. ground arith), (λ z. ground arith)),
)

pub converted : convert test_fpu (some jet_message) ≡ value (jet_track, none)
unfolding convert show_int
converted = refl
