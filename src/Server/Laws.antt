-- ===== src/Server/Laws.antt =====
-- What the server serves once it is set up (internal/hapi/server.go, internal/hapi/router/router.go).
use go_template_aerospike.Prelude.{text, Option, none, some, List, [], ◌∷◌, ◌++◌, if◌then◌else◌}
use go_template_aerospike.Config.{HttpConfig}
use go_template_aerospike.Server.{
  swagger, sockets, prometheus, wrap_pprof, get_version, get_ready, get_healthy, find_all,
  find_by_id, find_histories, Call, get, every_method, set_debug, set_hide_banner, use_middleware,
  make_group, get_in, Middleware, recover, cors, Server, Router, Route, init_calls,
}

-- The paths that are served and what each leads to, in the order of their registration: a group's prefix
-- stands before the path. The profiling routes are the library's.
abbrev pub served : List Call → List Route
served [] = []
served (get path e ∷ calls) = record { path = path; endpoint = e } ∷ served calls
served (every_method path e ∷ calls) = record { path = path; endpoint = e } ∷ served calls
served (set_debug b ∷ calls) = served calls
served (set_hide_banner b ∷ calls) = served calls
served (use_middleware m ∷ calls) = served calls
served (make_group prefix ∷ calls) = served calls
served (get_in prefix path e ∷ calls) =
    record { path = prefix ++ path; endpoint = e } ∷ served calls
served (wrap_pprof ∷ calls) = served calls

-- What the middlewares are, the outermost first.
abbrev pub middlewares : List Call → List Middleware
middlewares [] = []
middlewares (get path e ∷ calls) = middlewares calls
middlewares (every_method path e ∷ calls) = middlewares calls
middlewares (set_debug b ∷ calls) = middlewares calls
middlewares (set_hide_banner b ∷ calls) = middlewares calls
middlewares (use_middleware m ∷ calls) = m ∷ middlewares calls
middlewares (make_group prefix ∷ calls) = middlewares calls
middlewares (get_in prefix path e ∷ calls) = middlewares calls
middlewares (wrap_pprof ∷ calls) = middlewares calls

abbrev pub routes_of : Option Router → List Route
routes_of none = []
routes_of (some router) = router.routes

-- What the framework serves itself, and what the handlers serve.
abbrev pub common_routes : List Route
common_routes =
    record { path = text "/swagger/*"; endpoint = swagger }
    ∷ record { path = text "/socket.io/"; endpoint = sockets }
    ∷ record { path = text "/prometheus"; endpoint = prometheus }
    ∷ []

abbrev pub own_routes : List Route
own_routes =
    record { path = text "/version"; endpoint = get_version }
    ∷ record { path = text "/ready"; endpoint = get_ready }
    ∷ record { path = text "/healthy"; endpoint = get_healthy }
    ∷ record { path = text "/tracks"; endpoint = find_all }
    ∷ record { path = text "/tracks/:id"; endpoint = find_by_id }
    ∷ record { path = text "/track-histories"; endpoint = find_histories }
    ∷ []

-- The two that a configuration can leave out stand before the others.
abbrev pub outer : HttpConfig → List Middleware
outer cfg =
    (if cfg.enable_recover_middleware then recover ∷ [] else [])
    ++ (if cfg.enable_cors_middleware then cors ∷ [] else [])

-- The calls of the six routes.
abbrev own_calls : List Call
own_calls =
    get_in [] (text "/version") get_version
    ∷ get_in [] (text "/ready") get_ready
    ∷ get_in [] (text "/healthy") get_healthy
    ∷ get_in [] (text "/tracks") find_all
    ∷ get_in [] (text "/tracks/:id") find_by_id
    ∷ get_in [] (text "/track-histories") find_histories
    ∷ []

module _ {T : Type 0} where
  -- The server after `router.Init`.
  abbrev set_up : Server T → Server T
  set_up s = record s {
    echo = some (init_calls s.config ++ own_calls);
    router = some (record { routes = own_routes; root = []; management = text "/-" });
  }
