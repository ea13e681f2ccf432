-- ===== src/Grpc.antt =====
-- gRPC (internal/gapi): the client's connections, the event flag of a request, the context's values, the
-- middleware that logs a call, and the start of the server. The gRPC library is a parameter.
pub mod Laws
use go_template_aerospike.Prelude.{
  Bytes, text, eq_bytes, Bool, true, false, Option, none, some, List, [], ◌∷◌, ◌++◌, Dict, get_key,
  set_key, if◌then◌else◌, ℤ, show_int,
}
use go_template_aerospike.Query.{Result, ok, error, or_else}
use go_template_aerospike.Config.{ServiceConfig}

pub record GrpcClient (Conn : Type 0) : Type 0 where
  pub client_conn_map : Dict Conn
  pub service_conn_map : Dict Bytes

module _ {Error Conn : Type 0} (dial : Bytes → Result Error Conn) where
  -- `ccm[svc] = gc`, if there is no error.
  abbrev pub add_conn : Bytes → Result Error Conn → Dict Conn → Dict Conn
  add_conn svc (error e) out = out
  add_conn svc (ok conn) out = set_key svc conn out

  unfoldable pub dial_all : Dict Bytes → Dict Conn → Dict Conn
  dial_all [] out = out
  dial_all ((svc, uri) ∷ targets) out = dial_all targets (add_conn svc (dial uri) out)

  -- `order` is the order in which `range` visits the map.
  unfoldable pub new_client : (Dict Bytes → Dict Bytes) → Dict Bytes → GrpcClient Conn
  unfolding dial_all
  new_client order targets = record {
    client_conn_map = dial_all (order targets) [];
    service_conn_map = targets;
  }

-- The error's text.
abbrev pub invalid_service : Option Bytes → Bytes
invalid_service target = text "invalid svc: " ++ or_else target []

abbrev pub conn_of : {Conn : Type 0} → Option Bytes → Option Conn → Result Bytes Conn
conn_of none conn = error (invalid_service none)
conn_of (some uri) none = error (invalid_service (some uri))
conn_of (some uri) (some conn) = ok conn

unfoldable pub get_conn : {Conn : Type 0} → GrpcClient Conn → Bytes → Result Bytes Conn
unfolding get_key
get_conn c svc = conn_of (get_key svc c.service_conn_map) (get_key svc c.client_conn_map)

-- `strconv.ParseBool`: `none` is its error.
unfoldable pub is_one_of : List Bytes → Bytes → Bool
is_one_of [] s = false
is_one_of (t ∷ ts) s = let rest = is_one_of ts s in if eq_bytes t s then true else rest

abbrev pub true_texts : List Bytes
true_texts = text "1" ∷ text "t" ∷ text "T" ∷ text "true" ∷ text "TRUE" ∷ text "True" ∷ []

abbrev pub false_texts : List Bytes
false_texts = text "0" ∷ text "f" ∷ text "F" ∷ text "false" ∷ text "FALSE" ∷ text "False" ∷ []

unfoldable pub parse_bool : Bytes → Option Bool
unfolding is_one_of
parse_bool s =
    if is_one_of true_texts s
    then some true
    else if is_one_of false_texts s
    then some false
    else none

-- From the values of the request's metadata under `eventAPI`.
unfoldable pub get_event_api_from_context : List Bytes → Bool
unfolding parse_bool
get_event_api_from_context [] = false
get_event_api_from_context (v ∷ vs) = or_else (parse_bool v) false

-- `context.WithValue`: a value over those that the context has; a lookup finds the last one set.
abbrev pub with_value : List (Bytes × Bytes) → Bytes → Bytes → List (Bytes × Bytes)
with_value ctx key val = (key, val) ∷ ctx

-- Each of the three calls starts from the context that was given: the last one alone counts.
unfoldable pub add_to_context : List (Bytes × Bytes) → List (Bytes × Bytes)
add_to_context ctx =
    let first = with_value ctx (text "X-Username") [] in
    let second = with_value ctx (text "X-Unitcode") [] in with_value ctx (text "X-Unitname") []

-- How a handler ends.
pub data Handled (Error A : Type 0) : Type 0 where
  answered : A → Option Error → Handled Error A
  panicked : Handled Error A

pub data Level : Type 0 where
  error_level debug_level : Level

-- What is logged, and counted, of a call.
pub record CallLog : Type 0 where
  pub level : Level
  pub method : Bytes
  pub protocol : Bytes
  pub status_code : Bytes
  pub duration : ℤ

abbrev pub level_of : {Error : Type 0} → Option Error → Level
level_of none = debug_level
level_of (some e) = error_level

-- `err` is nil when the handler has panicked.
abbrev pub error_of : {Error A : Type 0} → Handled Error A → Option Error
error_of (answered a e) = e
error_of panicked = none

module _ {Error : Type 0} (status_code : Option Error → Option Bytes) where
  -- `status_code` is `status.FromError`, `none` where it is not ok; the second argument is the duration.
  unfoldable pub log_call : Bytes → ℤ → Option Error → CallLog
  log_call method duration e = record {
    level = level_of e;
    method = if eq_bytes method [] then text "-" else method;
    protocol = text "GRPC";
    status_code = or_else (status_code e) (text "Unknown");
    duration = duration;
  }

  -- The deferred function runs also when the handler panics.
  unfoldable pub logger_middleware :
      {A : Type 0} → Bytes → ℤ → Handled Error A → Handled Error A × CallLog
  unfolding log_call
  logger_middleware method duration handled = (handled, log_call method duration (error_of handled))

-- The type of the service is a parameter, since the server only keeps it.
pub record GrpcServer (Service : Type 0) : Type 0 where
  pub config : ServiceConfig
  pub main_service : Service

unfoldable pub new_server : {Service : Type 0} → ServiceConfig → Service → GrpcServer Service
new_server cfg svc = record { config = cfg; main_service = svc }

-- `PrintFatalLog` exits the process, so that neither error reaches the channel: what `Start` does, up to
-- where it serves or exits.
pub data GrpcStart : Type 0 where
  exits_listening : Bytes → GrpcStart
  exits_serving : Bytes → GrpcStart
  stopped : Bytes → GrpcStart

unfoldable pub start :
    {Service : Type 0} → (Bytes → Bool) → (Bytes → Bool) → GrpcServer Service → GrpcStart
unfolding show_int
start can_listen serve_fails s =
    let cfg = s.config.grpc_config in
    let address = cfg.grpc_host ++ b':' ∷ show_int cfg.grpc_port in
    if can_listen address
    then if serve_fails address then exits_serving address else stopped address
    else exits_listening address
