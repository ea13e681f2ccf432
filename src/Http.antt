-- ===== src/Http.antt =====
-- The HTTP handlers (internal/hapi): tracks, track histories, readiness and version, and the fields
-- that the logging middleware records.
pub mod Laws
use go_template_aerospike.Prelude.{
  ℕ, ◌^◌, ℤ, pos, Bytes, text, eq_bytes, not, ◌||◌, Option, none, some, List, [], ◌∷◌, ◌++◌, length,
  if◌then◌else◌, parse_int, atoi, show_int, Checked, value, and_then, to_int32,
}
use go_template_aerospike.Track.{Track, HistoryItem, ListData, Response}
use go_template_aerospike.Aerospike.{AsError}
use go_template_aerospike.History.{Collected, found, failed_with, Reader, find_by_track_id}
use go_template_aerospike.Service.{World, Service}
use go_template_aerospike.Config.{get_formatted_build_args}
use go_template_aerospike.Server.{Server, ready}
use go_template_aerospike.Tracks.{find_track_all, find_track_by_id}

-- What a handler answers.
pub data Reply (Payload : Type 0) : Type 0 where
  json : ℕ → Payload → Reply Payload
  json_error : ℕ → Bytes → Reply Payload
  database_error : ℕ → AsError → Reply Payload
  string : ℕ → Bytes → Reply Payload
  no_content : ℕ → Reply Payload

abbrev pub list_of : {Item : Type 0} → List Item → Response (ListData Item)
list_of l = record {
  code = text "0";
  payload = record { items = l; limit = pos 999999; offset = pos 0; total = pos (length l) };
  message = [];
}

-- `FindTrackAll` and `FindTrackByID` return no error: their callers' 404 is never sent.
unfoldable pub find_all_handler :
    {Db : Type 0} → World Db → Service Db → Reply (Response (ListData Track))
find_all_handler w s = json 200 (list_of (find_track_all w s))

unfoldable pub find_by_id_handler :
    {Db : Type 0} → Bytes → Service Db → Reply (Response (Option Track))
find_by_id_handler id_str s =
    let id = parse_int (2 ^ 31) id_str in
    if id.failed
    then json_error 400 (text " invalid id")
    else json 200
        (record { code = text "0"; payload = find_track_by_id (to_int32 id.value) s; message = [] })

-- The errors of both `Atoi` are dropped.
unfoldable pub num_of_history : Bytes → ℤ
num_of_history size = if not (eq_bytes size []) then (atoi size).value else pos 1000

abbrev pub history_reply : Collected → Reply (Response (ListData HistoryItem))
history_reply (failed_with e) = database_error 404 e
history_reply (found items) = json 200 (list_of items)

unfoldable pub find_by_track_id_handler :
    {Db : Type 0}
    → Reader Db
    → Bytes
    → Bytes
    → Db
    → Checked (Reply (Response (ListData HistoryItem)))
unfolding num_of_history
find_by_track_id_handler r track_id_str size db =
    if eq_bytes track_id_str []
    then value (no_content 400)
    else and_then (find_by_track_id r (atoi track_id_str).value (num_of_history size) db)
        λ c. value (history_reply c)

-- What `RequestInfo` of each node gives: its error's text, if it fails.
unfoldable pub probe_readiness : List (Bytes → Option Bytes) → Option Bytes
probe_readiness [] = some (text "aerospike cluster is empty")
probe_readiness (node ∷ nodes) = node (text "build")

unfoldable pub get_healthy_handler : {T : Type 0} → Server T → Reply (Unit {0})
unfolding ready
get_healthy_handler s =
    if not (ready s) then string 521 (text "Not ready.") else string 200 (text "Ready")

abbrev pub probed_reply : Option Bytes → Reply (Unit {0})
probed_reply (some e) = string 521 (text "Not ready " ++ (e ++ text " "))
probed_reply none = string 200 (text "Ready.")

unfoldable pub get_ready_handler :
    {T : Type 0} → Server T → List (Bytes → Option Bytes) → Reply (Unit {0})
unfolding ready probe_readiness
get_ready_handler s nodes =
    if not (ready s) then string 521 (text "Not ready.") else probed_reply (probe_readiness nodes)

-- The context's keys are what the headers hold, and its values are empty: `AddToContext` sets no
-- value under the headers' names. `header` gives a header of the request.
unfoldable pub add_to_context : (Bytes → Bytes) → List (Bytes × Bytes) → List (Bytes × Bytes)
add_to_context header ctx =
    (header (text "X-Unitname"), [])
    ∷ (header (text "X-Unitcode"), [])
    ∷ (header (text "X-Username"), [])
    ∷ ctx

-- `getVersionHandler`, over the build's module name, commit and date.
unfoldable pub get_version_handler : Bytes → Bytes → Bytes → Reply (Unit {0})
get_version_handler name commit date = string 200 (get_formatted_build_args name commit date)

-- The request and the response as the logging middleware reads them; the headers are `[]` when absent.
pub record Exchange : Type 0 where
  pub method : Bytes
  pub proto : Bytes
  pub path : Bytes
  pub status : ℤ
  pub content_length : Bytes
  pub origin : Bytes
  pub referer : Bytes
  pub real_ip : Bytes
  pub user_id : Bytes
  pub user_agent : Bytes

pub record Labels : Type 0 where
  pub method : Bytes
  pub protocol : Bytes
  pub path : Bytes
  pub status_code : Bytes
  pub content_length : Bytes
  pub origin : Bytes
  pub ip : Bytes
  pub user_id : Bytes
  pub user_agent : Bytes

unfoldable pub or_dash : Bytes → Bytes
or_dash s = if eq_bytes s [] then text "-" else s

unfoldable pub or_dash_zero : Bytes → Bytes
or_dash_zero s = if eq_bytes s [] || eq_bytes s (text "0") then text "-" else s

unfoldable pub origin_or_referer : Bytes → Bytes → Bytes
unfolding or_dash
origin_or_referer origin referer = if eq_bytes origin [] then or_dash referer else origin

-- The fields that `LoggerMiddleware` logs; all but the content length are the labels of the metric.
unfoldable pub labels : Exchange → Labels
unfolding or_dash or_dash_zero origin_or_referer
labels x = record {
  method = or_dash x.method;
  protocol = or_dash x.proto;
  path = or_dash x.path;
  status_code = or_dash_zero (show_int x.status);
  content_length = or_dash_zero x.content_length;
  origin = origin_or_referer x.origin x.referer;
  ip = or_dash x.real_ip;
  user_id = or_dash x.user_id;
  user_agent = or_dash x.user_agent;
}

-- An observation of a duration in a histogram, under its labels.
pub record Observation : Type 0 where
  pub label_values : List Bytes
  pub duration : ℤ

unfoldable pub set_http_metric : Labels → ℤ → List Observation → List Observation
set_http_metric l duration observed =
    observed
    ++ record {
      label_values =
          l.method ∷ l.protocol ∷ l.path ∷ l.status_code ∷ l.origin ∷ l.ip ∷ l.user_id
          ∷ l.user_agent ∷ [];
      duration = duration;
    }
      ∷ []

unfoldable pub set_grpc_metric : Bytes → Bytes → Bytes → ℤ → List Observation → List Observation
set_grpc_metric method protocol status_code duration observed =
    let dash = text "-" in
    observed
    ++ record {
      label_values = method ∷ protocol ∷ dash ∷ status_code ∷ dash ∷ dash ∷ dash ∷ dash ∷ [];
      duration = duration;
    }
      ∷ []
