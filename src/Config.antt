-- ===== src/Config.antt =====
-- internal/config: the configuration's records, its defaults, the log directory, the caller's name in a
-- log line, and the build's name. viper, lumberjack and the operating system are parameters.
pub mod Names
pub mod Rotation
use go_template_aerospike.Prelude.{
  ℕ, zero, suc, ℤ, pos, Bytes, text, Bool, true, false, Option, none, some, List, [], ◌∷◌, ◌++◌,
  ◌==◌, ◌-◌, if◌then◌else◌, length, drop, split, show_int, Dict, set_key,
}
use go_template_aerospike.Paths.{join_path, base_of}
use go_template_aerospike.Query.{Result, ok, error}
use go_template_aerospike.Hosts.{AerospikeConfig}

pub record GrpcConfig : Type 0 where
  pub grpc_port : ℤ
  pub grpc_host : Bytes
  pub grpc_channels : Dict Bytes

pub record HttpConfig : Type 0 where
  pub http_host : Bytes
  pub http_port : ℤ
  pub enable_recover_middleware : Bool
  pub enable_cors_middleware : Bool
  pub echo_debug : Bool
  pub rest_endpoints : Dict Bytes

pub record NatsConfig : Type 0 where
  pub server : Bytes
  pub listen_to_subject : List Bytes

pub record OtherConfig : Type 0 where
  pub environment : Bytes
  pub default_language : Bytes
  pub bundle_dir_abs : Bytes
  pub tracing_host : Bytes
  pub tracing_port : ℤ

pub record LoggerConfig : Type 0 where
  pub log_level : ℤ
  pub request_level : ℤ
  pub pretty_print_console : Bool
  pub max_size_mb : ℤ
  pub compress : Bool
  pub local_time : Bool
  pub max_backups : ℤ
  pub max_age_days : ℤ
  pub log_dir : Bytes
  pub rotate_daily : Bool

pub record TrackConfig : Type 0 where
  pub history_batch_size : ℤ
  pub history_batch_max_age : ℤ

pub record ServiceConfig : Type 0 where
  pub db_config : AerospikeConfig
  pub grpc_config : GrpcConfig
  pub http_config : HttpConfig
  pub logger_config : LoggerConfig
  pub other_config : OtherConfig
  pub nats_config : NatsConfig
  pub track_config : TrackConfig

pub data Setting : Type 0 where
  str : Bytes → Setting
  int : ℤ → Setting
  bool : Bool → Setting
  strs : List Bytes → Setting

abbrev pub set_each : List (Bytes × Setting) → Dict Setting → Dict Setting
set_each [] d = d
set_each ((k, v) ∷ kvs) d = set_each kvs (set_key k v d)

-- The calls of `viper.SetDefault`, in their order.
abbrev pub default_values : List (Bytes × Setting)
default_values =
    (text "other.environment", str (text "development"))
    ∷ (text "aerospike.host", str (text "127.0.0.1"))
    ∷ (text "aerospike.port", int (pos 3000))
    ∷ (text "aerospike.hosts", strs [])
    ∷ (text "aerospike.namespace", str (text "track_manager"))
    ∷ (text "aerospike.user", str (text ""))
    ∷ (text "aerospike.pass", str (text ""))
    ∷ (text "aerospike.connection_queue_size", int (pos 100))
    ∷ (text "aerospike.min_connections_per_node", int (pos 0))
    ∷ (text "aerospike.idle_timeout_ms", int (pos 0))
    ∷ (text "aerospike.connect_timeout_ms", int (pos 30000))
    ∷ (text "aerospike.tend_interval_ms", int (pos 1000))
    ∷ (text "aerospike.warm_up_connections", int (pos 10))
    ∷ (text "aerospike.use_services_alternate", bool false)
    ∷ (text "http.port", int (pos 8080))
    ∷ (text "http.enable_recover_middleware", bool true)
    ∷ (text "http.enable_cors_middleware", bool true)
    ∷ (text "http.coverage_service_url", str (text "http://127.0.0.1:30038"))
    ∷ (text "grpc.port", int (pos 8081))
    ∷ (text "other.default_lang", str (text "en"))
    ∷ (text "other.bundle_dir_abs", str (text "./web/i18n"))
    ∷ (text "nats.listen_to_subject", strs (text "ipc-track" ∷ []))
    ∷ (text "data.init_data", bool false)
    ∷ (text "data.uav_image_base_dir", str (text "./image/uav"))
    ∷ (text "data.file_base_dir", str (text "./data/file"))
    ∷ (text "mtx.host", str (text "http://127.0.0.1"))
    ∷ (text "mtx.api_port", int (pos 9997))
    ∷ (text "mtx.rtsp_port", int (pos 8554))
    ∷ (text "mtx.playback_port", int (pos 9996))
    ∷ (text "mtx.record_enable", bool true)
    ∷ (text "mtx.record_path", str (text "./recordings/"))
    ∷ (text "mtx.record_part_duration", str (text "10m"))
    ∷ (text "mtx.record_max_part_size", str (text "50M"))
    ∷ (text "mtx.record_segment_duration", str (text "1h"))
    ∷ (text "mtx.record_delete_after", str (text "2h"))
    ∷ []

unfoldable pub set_default_value : Dict Setting → Dict Setting
unfolding set_key
set_default_value d = set_each default_values d

-- How `LoadConfig` ends: `log.Fatal` exits the process, and an error of `InitLog` panics.
pub data Loaded : Type 0 where
  loaded : ServiceConfig → Loaded
  fatal : Loaded
  panics : Loaded

-- What `user.Current`, `os.Getenv` and `os.UserHomeDir` answer; an error of the first is `none`.
pub record User : Type 0 where
  pub username : Option Bytes
  pub user_env : Bytes
  pub home : Bytes

abbrev pub from_env : Bytes → Bytes
from_env [] = text "user"
from_env (c ∷ n) = c ∷ n

unfoldable pub current_user : User → Bytes
current_user u = elim u.username [
  | none ↦ from_env u.user_env
  | some name ↦ elim name [ [] ↦ from_env u.user_env | c ∷ n ↦ c ∷ n ]
]

unfoldable pub resolve_log_dir : User → Bytes → Bytes
unfolding current_user
resolve_log_dir u [] =
    join_path (join_path (join_path u.home (text ".local")) (current_user u)) (text "logs")
resolve_log_dir u (c ∷ dir) = c ∷ dir

-- What `InitLog` sets up: the folder that it makes, the file that the logs go to, and whether that is
-- rotated at midnight; `none` if the folder cannot be made.
pub record LogFile : Type 0 where
  pub made : Bytes
  pub filename : Bytes
  pub rotated : Bool
  pub colour : Bool

unfoldable pub init_log : (Bytes → Bool) → User → LoggerConfig → Option LogFile
unfolding resolve_log_dir
init_log can_make u cfg =
    if can_make (resolve_log_dir u cfg.log_dir)
    then some (record {
      made = resolve_log_dir u cfg.log_dir;
      filename = join_path cfg.log_dir (text "app.log");
      rotated = cfg.rotate_daily;
      colour = cfg.pretty_print_console;
    })
    else none

abbrev pub log_started : ServiceConfig → Option LogFile → Loaded
log_started cfg none = panics
log_started cfg (some f) = loaded cfg

-- The file is read with the defaults below it.
unfoldable pub load_config :
    {Error : Type 0}
    → (Bytes → Dict Setting → Result Error (Result Error ServiceConfig))
    → (Bytes → Bool)
    → User
    → Bytes
    → Loaded
unfolding set_default_value init_log
load_config read_and_map can_make u path = elim (read_and_map path (set_default_value [])) [
  | error e ↦ fatal
  | ok mapped ↦ elim mapped [
    | error e ↦ fatal
    | ok cfg ↦ log_started cfg (init_log can_make u cfg.logger_config)
  ]
]

-- `file[i]`, and 0 out of range, where the loop never reads.
unfoldable pub byte_at : ℕ → Bytes → ℕ
byte_at i [] = 0
byte_at zero (c ∷ s) = c
byte_at (suc i) (c ∷ s) = byte_at i s

-- The loop of `CallerMarshalFunc`, from the index down; it stops before index 0.
unfoldable pub short_name : ℕ → Bytes → Bytes
unfolding byte_at
short_name zero file = file
short_name (suc i) file =
    let rest = short_name i file in
    if byte_at (suc i) file == b'/' then drop (suc (suc i)) file else rest

unfoldable pub marshal_caller : Bytes → ℤ → Bytes
unfolding short_name show_int
marshal_caller file line = short_name (length file - 1) file ++ b':' ∷ show_int line

unfoldable pub get_module_name : Bytes → Bytes
unfolding split
get_module_name name = base_of (split b'/' name)

unfoldable pub get_formatted_build_args : Bytes → Bytes → Bytes → Bytes
unfolding get_module_name
get_formatted_build_args name commit date =
    get_module_name name ++ (text " @ " ++ (commit ++ (text " (" ++ (date ++ text ")"))))
