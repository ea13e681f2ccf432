-- ===== src/Tests/Wiring.antt =====
-- Connections, the start of the program, translations and options.
use go_template_aerospike.Prelude.{
  ℕ, pos, Bytes, text, eq_bytes, Bool, true, false, none, some, List, [], ◌∷◌, ◌++◌, ◌≡◌, refl,
  arith, All, Has, ◌⊎◌, Dict, get_key, erase_key, IsDict, value,
}
use go_template_aerospike.Query.{
  Result, ok, error, create_search_options, Options, parse_search_options,
}
use go_template_aerospike.Query.RoundTrip.{parse_search_options-create_search_options}
use go_template_aerospike.Paths.{join_path, clean, push}
use go_template_aerospike.Hosts.{AerospikeConfig, info, trim_space}
use go_template_aerospike.Hosts.Connect.{
  ClientPolicy, client_policy, Library, connect_database, connected, exits, connect_database_named,
}
use go_template_aerospike.Config.{OtherConfig}
use go_template_aerospike.Sockets.{
  ConnectionContext, SocketEvent, connect, fail, handle_all, no_sockets,
}
use go_template_aerospike.Sockets.Tracking.{handle_all-tracked}
use go_template_aerospike.Config.{ServiceConfig, loaded}
use go_template_aerospike.Startup.{Outside}
use go_template_aerospike.I18n.{Packages, I18n, new, tags}
use go_template_aerospike.I18n.Laws.{new-IsReady}
use go_template_aerospike.Grpc.{new_client, get_conn}
use go_template_aerospike.Grpc.Laws.{expected, get_conn-new_client}

abbrev events : List SocketEvent
events = connect (text "a") ∷ connect (text "b") ∷ fail (text "a") ∷ connect (text "a") ∷ []

tracked_example :
    Has 1 (handle_all events no_sockets).cancelled
    ⊎ ((id : Bytes) × (c : ConnectionContext) × (get_key id (handle_all events no_sockets).conns
          ≡ some c)
        × (c.ctx ≡ 1))
unfolding handle_all get_key erase_key
tracked_example = handle_all-tracked events 1 (refl, (refl, (refl, tt))) (omega arith)

abbrev cluster : AerospikeConfig
cluster = record {
  host = text "node";
  port = pos 3000;
  hosts = [];
  namespace = text "test";
  user = text "";
  pass = text "";
  connection_queue_size = pos 100;
  min_connections_per_node = pos 0;
  idle_timeout_ms = pos 0;
  connect_timeout_ms = pos 30000;
  tend_interval_ms = pos 1000;
  warm_up_connections = pos 10;
  use_services_alternate = false;
}

abbrev service_config : ServiceConfig
service_config = record {
  db_config = cluster;
  grpc_config = record { grpc_port = pos 8081; grpc_host = []; grpc_channels = [] };
  http_config = record {
    http_host = [];
    http_port = pos 8080;
    enable_recover_middleware = true;
    enable_cors_middleware = true;
    echo_debug = false;
    rest_endpoints = [];
  };
  logger_config = record {
    log_level = pos 0;
    request_level = pos 0;
    pretty_print_console = true;
    max_size_mb = pos 10;
    compress = false;
    local_time = true;
    max_backups = pos 3;
    max_age_days = pos 7;
    log_dir = text "logs";
    rotate_daily = false;
  };
  other_config = record {
    environment = text "development";
    default_language = text "en";
    bundle_dir_abs = text "./web/i18n";
    tracing_host = [];
    tracing_port = pos 0;
  };
  nats_config = record {
    server = text "nats://localhost";
    listen_to_subject = text "ipc-track" ∷ [];
  };
  track_config = record { history_batch_size = pos 5; history_batch_max_age = pos 1 };
}

-- Everything succeeds until the process gets a signal.
abbrev interrupted : Outside Bytes
interrupted = record {
  config = λ file. loaded service_config;
  database = λ cfg. true;
  nats = λ cfg. none;
  migration = none;
  first_error = some (text "interrupt");
}

-- A tag is its text, `und` is undetermined, and a bundle is its tags.
abbrev packages : Packages Bytes Bytes (List Bytes) ℕ
packages = record {
  parse = λ s. (s, none);
  parse_accept_language = λ s. (s ∷ [], none);
  is_und = λ t. eq_bytes t (text "und");
  tag_text = λ t. t;
  new_bundle = λ t. t ∷ [];
  read_dir = λ d. ok (record { name = text "de.toml"; is_dir = false } ∷ []);
  load_message_file = λ f b. ok (b ++ f ∷ []);
  language_tags = λ b. b;
  best_match = λ known wanted. [];
  localize = λ b lang cfg. (cfg.message_id, none);
  count_text = λ n. [];
}

abbrev languages : OtherConfig
languages = record {
  environment = text "production";
  default_language = text "en";
  bundle_dir_abs = text "i18n";
  tracing_host = [];
  tracing_port = pos 0;
}

abbrev translator : I18n Bytes (List Bytes)
translator = record {
  bundle = text "en" ∷ text "i18n/de.toml" ∷ [];
  matcher = text "en" ∷ text "i18n/de.toml" ∷ [];
}

new_example :
    All (λ t. eq_bytes t (text "und") ≡ false) (tags packages translator)
    × (translator.matcher ≡ tags packages translator)
unfolding new join_path clean push
new_example = new-IsReady packages languages translator refl

abbrev targets : Dict Bytes
targets = (text "orders", text "host:1") ∷ (text "users", text "bad") ∷ []

abbrev if_bad : Bool → Bytes → Result Bytes Bytes
if_bad true uri = error (text "no such host")
if_bad false uri = ok uri

abbrev dial_address : Bytes → Result Bytes Bytes
dial_address uri = if_bad (eq_bytes uri (text "bad")) uri

targets-IsDict : IsDict targets
unfolding get_key
targets-IsDict = (refl, (refl, tt))

get_conn_example :
    get_conn (new_client dial_address (λ d. d) targets) (text "users")
    ≡ expected dial_address (get_key (text "users") targets)
get_conn_example =
    get_conn-new_client dial_address (λ d. d) targets (text "users") (λ d h. (h, λ k. refl))
      targets-IsDict

search_options_example :
    (o : Options) × (parse_search_options
        (λ d. d)
        (λ d. d)
        (create_search_options (λ d. d) ((text "name", text "x" ∷ []) ∷ []) (pos 2) (pos 20))
      ≡ value o)
    × ((k : Bytes) → get_key k o.filter ≡ get_key k ((text "name", text "x" ∷ []) ∷ []))
    × (get_key (text "page") o.page ≡ some (pos 2))
    × (get_key (text "size") o.page ≡ some (pos 20))
    × (o.fields ≡ [])
    × (o.sort ≡ [])
unfolding get_key
search_options_example =
    parse_search_options-create_search_options (λ d. d) (λ d. d) (λ d. d)
      ((text "name", text "x" ∷ []) ∷ []) (pos 2) (pos 20) (λ d h. (h, λ k. refl))
      (λ d h. (h, λ k. refl)) (λ d h. (h, λ k. refl)) (refl, tt)

-- A library whose client is its policy, and a cluster of one node.
abbrev library : Library Bytes ClientPolicy
library = record {
  new_client = λ policy hosts. ok policy;
  nodes = λ client. (λ command. info ((command, text "bar;test") ∷ [])) ∷ [];
  close = λ client. client;
  warm_up = λ n client. client;
}

-- The node answers `bar;test`, and `test` is the configured namespace.
abbrev listed_cluster : AerospikeConfig
listed_cluster = record cluster { hosts = text "node:3000" ∷ [] }

connect_example :
    (Has (text "test") (text "bar" ∷ text "test" ∷ [])
      → connect_database library listed_cluster ≡ connected (client_policy listed_cluster))
    × ((Has (text "test") (text "bar" ∷ text "test" ∷ []) → ⊥)
        → connect_database library listed_cluster ≡ exits (some (client_policy listed_cluster)))
unfolding trim_space go_template_aerospike.Prelude.show_int
connect_example =
    connect_database_named library listed_cluster (record { name = text "node"; port = pos 3000 })
      [] (client_policy listed_cluster) (λ command. info ((command, text "bar;test") ∷ [])) []
      ((text "namespaces", text "bar;test") ∷ []) (text "bar" ∷ text "test" ∷ []) refl
      ((omega arith, refl), tt) refl refl refl refl (λ e. ground (arith, e))
      (
        ((λ e. ground (arith, e)), ((λ e. ground (arith, e)), ((λ e. ground (arith, e)), tt))),
        (
          (
            (λ e. ground (arith, e)),
            ((λ e. ground (arith, e)), ((λ e. ground (arith, e)), ((λ e. ground (arith, e)), tt))),
          ),
          tt,
        ),
      )
