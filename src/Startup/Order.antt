-- ===== src/Startup/Order.antt =====
-- What a run of `runServer` does and what it never reaches.
use go_template_aerospike.Prelude.{
  Bytes, text, eq_bytes, Bool, true, false, Option, none, some, List, [], ◌∷◌, ◌≡◌, refl, arith,
  any, if◌then◌else◌, All, ◌≢◌,
}
use go_template_aerospike.Config.{ServiceConfig, Loaded, loaded, fatal, panics}
use go_template_aerospike.Startup.{
  Action, load_config, pretty_log, connect_database, close_database, connect_nats, drain_nats,
  make_sockets, serve_sockets, close_sockets, make_service, init_i18n, init_router, start_http,
  start_grpc, migrate, start_batch, subscribe, add_worker, returned, exited, waits, waited, Ended,
  Run, ◌then◌, defer, each, Outside, config_file, migrated, serve, nats_connected,
  database_connected, log_actions, configured, run_server,
}

-- The run does not return, and has no action of the kind.
abbrev Never : (Action → Bool) → Run → Type 0
Never p (actions, e) = (e ≢ returned) × (any p actions ≡ false)

module _ (p : Action → Bool) where
  then-Never : (a : Action) (r : Run) → p a ≡ false → Never p r → Never p (a then r)
  then-Never a (actions, e) other (out, never) = (out, ground (arith, other, never))

  defer-Never : (a : Action) (r : Run) → Never p r → Never p (defer a r)
  defer-Never a (actions, exited) h = h
  defer-Never a (actions, waits) h = h
  defer-Never a (actions, returned) (out, never) = absurd (out refl)

  each-Never :
      (actions : List Action) (r : Run)
      → All (λ a. p a ≡ false) actions
      → Never p r
      → Never p (each actions r)
  each-Never [] r h never = never
  each-Never (a ∷ actions) r (other, h) never =
      then-Never a (each actions r) other (each-Never actions r h never)

-- The deferred calls.
abbrev pub closes : Action → Bool
closes close_database = true
closes drain_nats = true
closes close_sockets = true
closes a = false

-- The work on messages.
abbrev pub works : Action → Bool
works start_batch = true
works (subscribe subject) = true
works add_worker = true
works a = false

exited_ne : exited ≢ returned
exited_ne e = ground arith

-- Every stage of the start has gone well, and no error comes.
abbrev pub IsServing : {Error : Type 0} → Outside Error → List Bytes → Type 0
IsServing outside args =
    (cfg : ServiceConfig) × (outside.config (config_file args) ≡ loaded cfg)
    × (outside.database cfg ≡ true)
    × (outside.nats cfg ≡ none)
    × (outside.migration ≡ none)
    × (outside.first_error ≡ none)

module _ {Error : Type 0} (outside : Outside Error) where
  abbrev end_migrated : Option Error → Ended
  end_migrated (some e) = exited
  end_migrated none = waited outside.first_error

  abbrev end_connected : Option Error → Ended
  end_connected (some e) = exited
  end_connected none = end_migrated outside.migration

  abbrev end_database : ServiceConfig → Bool → Ended
  end_database cfg false = exited
  end_database cfg true = end_connected (outside.nats cfg)

  abbrev end_of : Loaded → Ended
  end_of fatal = exited
  end_of panics = exited
  end_of (loaded cfg) = end_database cfg (outside.database cfg)

  -- If nothing up to the migration is of a kind, and nothing after it, then nothing in the run is.
  module _ (p : Action → Bool) (loads : (file : Bytes) → p (load_config file) ≡ false)
      (logs : p pretty_log ≡ false)
      (connects : All
        (λ a. p a ≡ false)
        (connect_database ∷ connect_nats ∷ make_sockets ∷ serve_sockets ∷ []))
      (starts : All
        (λ a. p a ≡ false)
        (make_service ∷ init_i18n ∷ init_router ∷ start_http ∷ start_grpc ∷ migrate ∷ []))
      (after : (cfg : ServiceConfig) → Never p (migrated outside cfg outside.migration)) where
    serve-Never : (cfg : ServiceConfig) → Never p (serve outside cfg)
    unfolding serve
    serve-Never cfg =
        each-Never p
          (make_service ∷ init_i18n ∷ init_router ∷ start_http ∷ start_grpc ∷ migrate ∷ [])
          (migrated outside cfg outside.migration) starts (after cfg)

    nats_connected-Never :
        (cfg : ServiceConfig) (e : Option Error) → Never p (nats_connected outside cfg e)
    unfolding nats_connected
    nats_connected-Never cfg (some e) = (exited_ne, refl)
    nats_connected-Never cfg none =
        let (database, (nats, (make, (serves, rest)))) = connects in
        let served = defer-Never p close_sockets (serve outside cfg) (serve-Never cfg) in
        defer-Never p drain_nats
          (make_sockets then serve_sockets then defer close_sockets (serve outside cfg))
          (each-Never p (make_sockets ∷ serve_sockets ∷ [])
            (defer close_sockets (serve outside cfg)) (make, (serves, tt)) served)

    database_connected-Never :
        (cfg : ServiceConfig) (b : Bool) → Never p (database_connected outside cfg b)
    unfolding database_connected
    database_connected-Never cfg false = (exited_ne, refl)
    database_connected-Never cfg true =
        let (database, (nats, rest)) = connects in
        let r = nats_connected outside cfg (outside.nats cfg) in
        defer-Never p close_database (connect_nats then r)
          (then-Never p connect_nats r nats (nats_connected-Never cfg (outside.nats cfg)))

    log_actions-All : (b : Bool) → All (λ a. p a ≡ false) (if b then pretty_log ∷ [] else [])
    log_actions-All true = (logs, tt)
    log_actions-All false = tt

    configured-Never : (l : Loaded) → Never p (configured outside l)
    unfolding configured
    configured-Never fatal = (exited_ne, refl)
    configured-Never panics = (exited_ne, refl)
    configured-Never (loaded cfg) =
        let r = database_connected outside cfg (outside.database cfg) in
        each-Never p (log_actions cfg) (connect_database then r)
          (log_actions-All (eq_bytes cfg.other_config.environment (text "development")))
          (then-Never p connect_database r connects.0
            (database_connected-Never cfg (outside.database cfg)))

    run_server-Never : (args : List Bytes) → Never p (run_server outside args)
    unfolding run_server
    run_server-Never args =
        then-Never p (load_config (config_file args))
          (configured outside (outside.config (config_file args))) (loads (config_file args))
          (configured-Never (outside.config (config_file args)))

  -- When the migration fails, the run starts neither the batch loop nor a subscription nor the
  -- broadcast.
  pub run_server-works :
      (e : Error) (args : List Bytes)
      → outside.migration ≡ some e
      → ((run_server outside args).1 ≢ returned) × (any works (run_server outside args).0 ≡ false)
  unfolding migrated
  run_server-works e args fails =
      run_server-Never works (λ file. refl) refl (refl, (refl, (refl, (refl, tt))))
        (refl, (refl, (refl, (refl, (refl, (refl, tt))))))
        (λ cfg. rw (migrated, fails) (exited_ne, refl)) args
