-- ===== src/Startup.antt =====
-- `runServer` (cmd/start.go) as the calls that it makes, in their order. `log.Fatal` exits the process,
-- and what was deferred is then not run. Goroutines are recorded where they are started.
pub mod Order
use go_template_aerospike.Prelude.{
  Bytes, text, eq_bytes, Bool, true, false, Option, none, some, List, [], ◌∷◌, ◌++◌, if◌then◌else◌,
  map,
}
use go_template_aerospike.Config.{ServiceConfig, Loaded, loaded, fatal, panics}

pub data Action : Type 0 where
  load_config : Bytes → Action
  pretty_log : Action
  connect_database : Action
  close_database : Action
  connect_nats : Action
  drain_nats : Action
  make_sockets : Action
  serve_sockets : Action
  close_sockets : Action
  make_service : Action
  init_i18n : Action
  init_router : Action
  start_http : Action
  start_grpc : Action
  migrate : Action
  start_batch : Action
  subscribe : Bytes → Action
  add_worker : Action
  wait_signal : Action
  wait_error : Action

-- How a run ends: the function returns, the process exits, or the function waits for ever.
pub data Ended : Type 0 where
  returned : Ended
  exited : Ended
  waits : Ended

abbrev pub Run : Type 0
Run = List Action × Ended

infixr 20 ◌then◌
abbrev pub ◌then◌ : Action → Run → Run
◌then◌ a (actions, e) = (a ∷ actions, e)

-- A deferred call runs when the function returns.
abbrev pub defer : Action → Run → Run
defer a (actions, returned) = (actions ++ a ∷ [], returned)
defer a (actions, exited) = (actions, exited)
defer a (actions, waits) = (actions, waits)

abbrev pub each : List Action → Run → Run
each [] r = r
each (a ∷ actions) r = a then each actions r

-- What the calls answer: `none` is no error.
pub record Outside (Error : Type 0) : Type 0 where
  pub config : Bytes → Loaded
  pub database : ServiceConfig → Bool
  pub nats : ServiceConfig → Option Error
  pub migration : Option Error
  -- what a goroutine sends first to `errs`, if one ever does
  pub first_error : Option Error

abbrev pub config_file : List Bytes → Bytes
config_file [] = text "."
config_file (a ∷ args) = a

abbrev pub log_actions : ServiceConfig → List Action
log_actions cfg =
    if eq_bytes cfg.other_config.environment (text "development") then pretty_log ∷ [] else []

module _ {Error : Type 0} where
  -- `err = <-errs`; the error is logged as fatal.
  abbrev pub waited : Option Error → Ended
  waited none = waits
  waited (some e) = exited

  -- After the migration.
  unfoldable pub migrated : Outside Error → ServiceConfig → Option Error → Run
  migrated outside cfg (some e) = ([], exited)
  migrated outside cfg none =
      start_batch
      then each (map subscribe cfg.nats_config.listen_to_subject)
          (add_worker then wait_signal then wait_error then ([], waited outside.first_error))

  -- The error of `InitI18n` is dropped.
  unfoldable pub serve : Outside Error → ServiceConfig → Run
  unfolding migrated
  serve outside cfg =
      make_service
      then init_i18n
      then init_router
      then start_http
      then start_grpc
      then migrate
      then migrated outside cfg outside.migration

  unfoldable pub nats_connected : Outside Error → ServiceConfig → Option Error → Run
  unfolding serve
  nats_connected outside cfg (some e) = ([], exited)
  nats_connected outside cfg none =
      defer drain_nats
        (make_sockets then serve_sockets then defer close_sockets (serve outside cfg))

  unfoldable pub database_connected : Outside Error → ServiceConfig → Bool → Run
  unfolding nats_connected
  database_connected outside cfg false = ([], exited)
  database_connected outside cfg true =
      defer close_database (connect_nats then nats_connected outside cfg (outside.nats cfg))

  unfoldable pub configured : Outside Error → Loaded → Run
  unfolding database_connected
  configured outside fatal = ([], exited)
  configured outside panics = ([], exited)
  configured outside (loaded cfg) =
      each (log_actions cfg)
        (connect_database then database_connected outside cfg (outside.database cfg))

  unfoldable pub run_server : Outside Error → List Bytes → Run
  unfolding configured
  run_server outside args =
      load_config (config_file args) then configured outside (outside.config (config_file args))
