-- ===== src/Server.antt =====
-- The HTTP server (internal/hapi/server.go), its routes (internal/hapi/router/router.go,
-- internal/hapi/handlers/handlers.go and the handlers' `…Route` functions), and its start. The
-- framework stands for the list of calls that were made on it.
pub mod Laws
use go_template_aerospike.Prelude.{
  Bytes, text, show_int, Bool, true, false, ◌&&◌, Option, none, some, List, [], ◌∷◌, ◌++◌, Checked,
  value, and_then, deref, if◌then◌else◌,
}
use go_template_aerospike.Config.{HttpConfig}
use go_template_aerospike.Hub.{Hub, new_hub}
use go_template_aerospike.Query.{Result, ok, error}

-- What a route leads to.
pub data Endpoint : Type 0 where
  swagger : Endpoint
  sockets : Endpoint
  prometheus : Endpoint
  get_version : Endpoint
  get_ready : Endpoint
  get_healthy : Endpoint
  find_all : Endpoint
  find_by_id : Endpoint
  find_histories : Endpoint

pub data Middleware : Type 0 where
  recover : Middleware
  cors : Middleware
  otel : Middleware
  log_requests : Middleware

-- A call on the framework.
pub data Call : Type 0 where
  get : Bytes → Endpoint → Call
  every_method : Bytes → Endpoint → Call
  set_debug : Bool → Call
  set_hide_banner : Bool → Call
  use_middleware : Middleware → Call
  make_group : Bytes → Call
  -- `GET` on the group of a prefix
  get_in : Bytes → Bytes → Endpoint → Call
  -- `echopprof.Wrap`, which registers the profiling routes
  wrap_pprof : Call

-- What `GET` on a group gives.
pub record Route : Type 0 where
  pub path : Bytes
  pub endpoint : Endpoint

-- The groups are their prefixes.
pub record Router : Type 0 where
  pub routes : List Route
  pub root : Bytes
  pub management : Bytes

-- Of the service, the field that is set here.
pub record MainService : Type 0 where
  pub order_hub : Option Hub

pub record Server (Translations : Type 0) : Type 0 where
  pub echo : Option (List Call)
  pub config : HttpConfig
  pub router : Option Router
  pub i18n : Option Translations
  pub main_service : Option MainService
  pub order_hub : Hub

unfoldable pub set_order_hub : Hub → MainService → MainService
set_order_hub hub svc = record svc { order_hub = some hub }

abbrev pub is_set : {A : Type 0} → Option A → Bool
is_set none = false
is_set (some a) = true

abbrev pub when : Bool → Middleware → List Call
when b m = if b then use_middleware m ∷ [] else []

-- The calls on the framework up to the groups. A disabled middleware is only logged.
unfoldable pub init_calls : HttpConfig → List Call
init_calls cfg =
    get (text "/swagger/*") swagger
    ∷ every_method (text "/socket.io/") sockets
    ∷ set_debug cfg.echo_debug
    ∷ set_hide_banner true
    ∷ (when cfg.enable_recover_middleware recover
        ++ (when cfg.enable_cors_middleware cors
            ++ (use_middleware otel
                ∷ use_middleware log_requests
                ∷ get (text "/prometheus") prometheus
                ∷ make_group []
                ∷ make_group (text "/-")
                ∷ [])))

-- The errors that `Start` sends, and whether it panics.
pub record Started (Error : Type 0) : Type 0 where
  pub sent : List Error
  pub panicked : Bool

abbrev pub address : HttpConfig → Bytes
address cfg = cfg.http_host ++ b':' ∷ show_int cfg.http_port

module _ {Translations : Type 0} where
  unfoldable pub new_server : MainService → HttpConfig → Server Translations
  unfolding set_order_hub
  new_server svc cfg = record {
    echo = none;
    config = cfg;
    router = none;
    i18n = none;
    main_service = some (set_order_hub new_hub svc);
    order_hub = new_hub;
  }

  unfoldable pub ready : Server Translations → Bool
  ready s = is_set s.echo && (is_set s.router && is_set s.main_service)

  -- `created` is what `i18n.New` gives.
  unfoldable pub init_i18n :
      {Error : Type 0}
      → Result Error Translations
      → Server Translations
      → Option Error × Server Translations
  init_i18n (error e) s = (some e, s)
  init_i18n (ok i18n_service) s = (none, record s { i18n = some i18n_service })

  -- `s.Router.Root.GET(path, …)`
  unfoldable pub root_get :
      Bytes → Endpoint → Server Translations → Checked (Route × Server Translations)
  root_get path e s = and_then (deref s.router) λ router. and_then (deref s.echo) λ calls. value (
    record { path = router.root ++ path; endpoint = e },
    record s { echo = some (calls ++ get_in router.root path e ∷ []) },
  )

  unfoldable pub get_version_route : Server Translations → Checked (Route × Server Translations)
  unfolding root_get
  get_version_route s = root_get (text "/version") get_version s

  unfoldable pub get_ready_route : Server Translations → Checked (Route × Server Translations)
  unfolding root_get
  get_ready_route s = root_get (text "/ready") get_ready s

  unfoldable pub get_healthy_route : Server Translations → Checked (Route × Server Translations)
  unfolding root_get
  get_healthy_route s = root_get (text "/healthy") get_healthy s

  unfoldable pub find_all_route : Server Translations → Checked (Route × Server Translations)
  unfolding root_get
  find_all_route s = root_get (text "/tracks") find_all s

  unfoldable pub find_by_id_route : Server Translations → Checked (Route × Server Translations)
  unfolding root_get
  find_by_id_route s = root_get (text "/tracks/:id") find_by_id s

  unfoldable pub find_by_track_id_route :
      Server Translations → Checked (Route × Server Translations)
  unfolding root_get
  find_by_track_id_route s = root_get (text "/track-histories") find_histories s

  unfoldable pub attack_all_routes : Server Translations → Checked (Server Translations)
  unfolding get_version_route get_ready_route get_healthy_route find_all_route find_by_id_route
      find_by_track_id_route
  attack_all_routes s = and_then (get_version_route s) λ a. and_then (get_ready_route a.1) λ b.
      and_then (get_healthy_route b.1) λ c. and_then (find_all_route c.1) λ d.
        and_then (find_by_id_route d.1) λ e. and_then (find_by_track_id_route e.1) λ f.
          and_then (deref f.1.router) λ router. value (record f.1 {
            router = some (record router { routes = a.0 ∷ b.0 ∷ c.0 ∷ d.0 ∷ e.0 ∷ f.0 ∷ [] });
          })

  -- `router.Init`
  unfoldable pub init : Server Translations → Checked (Server Translations)
  unfolding attack_all_routes init_calls
  init s = attack_all_routes (record s {
    echo = some (init_calls s.config);
    router = some (record { routes = []; root = []; management = text "/-" });
  })

  -- `Start` goes on after it has sent that the server is not ready; without a framework, `Wrap`
  -- registers its routes on nil. `listen` is `Echo.Start`, which returns with an error.
  unfoldable pub start :
      {Error : Type 0} → Error → (List Call → Bytes → Error) → Server Translations → Started Error
  unfolding ready
  start not_ready listen s =
      let first = if ready s then [] else not_ready ∷ [] in
      elim s.echo [
        | none ↦ record { sent = first; panicked = true }
        | some calls ↦ record {
          sent = first ++ listen (calls ++ wrap_pprof ∷ []) (address s.config) ∷ [];
          panicked = false;
        }
      ]
