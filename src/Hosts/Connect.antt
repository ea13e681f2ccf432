-- ===== src/Hosts/Connect.antt =====
-- `ConnectDatabase` (internal/db/aerospikedb.go). The client library is a parameter; `log.Fatal` exits the
-- process.
use go_template_aerospike.Prelude.{
  suc, ◌*◌, ℤ, pos, negsuc, to_int64, Bytes, Bool, true, false, Option, none, some, List, ◌≡◌, refl,
  sym, ◌∙◌, ltb_ℤ, Option-cases, inl, inr, ◌-◌, ◌∷◌, [], ap, map, text, join, Lacks, ◌≢◌, All, Has,
}
use go_template_aerospike.Query.{Result, ok, error}
use go_template_aerospike.Hosts.{
  AerospikeConfig, Host, Built, built, bad_port, no_hosts, build_hosts, Info, info, entry,
  NamespaceError, ensure_namespace_exists,
}
use go_template_aerospike.Hosts.Laws.{
  print_host, IsPrintable, build_hosts-print_host, ensure_namespace_exists-Has,
}

pub record ClientPolicy : Type 0 where
  -- in nanoseconds
  pub timeout : ℤ
  pub connection_queue_size : ℤ
  pub limit_connections_to_queue_size : Bool
  pub min_connections_per_node : ℤ
  pub idle_timeout : ℤ
  pub tend_interval : ℤ
  pub use_services_alternate : Bool
  pub user : Bytes
  pub password : Bytes

abbrev pub million_times : ℤ → ℤ
million_times (pos n) = pos (n * 1000000)
million_times (negsuc n) = negsuc (suc n * 1000000 - 1)

-- `time.Duration(x) * time.Millisecond`, with the wrap-around of an int64.
unfoldable pub milliseconds : ℤ → ℤ
unfolding to_int64
milliseconds x = to_int64 (million_times x)

unfoldable pub client_policy : AerospikeConfig → ClientPolicy
unfolding milliseconds
client_policy cfg = record {
  timeout = milliseconds cfg.connect_timeout_ms;
  connection_queue_size = cfg.connection_queue_size;
  limit_connections_to_queue_size = true;
  min_connections_per_node = cfg.min_connections_per_node;
  idle_timeout = milliseconds cfg.idle_timeout_ms;
  tend_interval = milliseconds cfg.tend_interval_ms;
  use_services_alternate = cfg.use_services_alternate;
  user = cfg.user;
  password = cfg.pass;
}

-- The client library: a client or an error, its nodes, and how many connections a warm-up made.
pub record Library (Error Client : Type 0) : Type 0 where
  pub new_client : ClientPolicy → List Host → Result Error Client
  pub nodes : Client → List (Bytes → Info)
  pub close : Client → Client
  pub warm_up : ℤ → Client → Client

-- The process goes on with the client, or exits, with the client that was closed before if there was one.
pub data Connected (Client : Type 0) : Type 0 where
  connected : Client → Connected Client
  exits : Option Client → Connected Client

module _ {Error Client : Type 0} (library : Library Error Client) where
  abbrev pub warmed : Bool → ℤ → Client → Client
  warmed true n client = library.warm_up n client
  warmed false n client = client

  unfoldable pub check_client : AerospikeConfig → Client → Connected Client
  unfolding ensure_namespace_exists
  check_client cfg client = elim (ensure_namespace_exists (library.nodes client) cfg.namespace) [
    | some e ↦ exits (some (library.close client))
    | none ↦
        connected (warmed (ltb_ℤ (pos 0) cfg.warm_up_connections) cfg.warm_up_connections client)
  ]

  abbrev pub client_of : AerospikeConfig → Built → Connected Client
  client_of cfg (bad_port raw) = exits none
  client_of cfg no_hosts = exits none
  client_of cfg (built hosts) = elim (library.new_client (client_policy cfg) hosts) [
    | error e ↦ exits none
    | ok client ↦ check_client cfg client
  ]

  unfoldable pub connect_database : AerospikeConfig → Connected Client
  unfolding build_hosts client_policy check_client
  connect_database cfg = client_of cfg (build_hosts cfg)

  check_client-cases :
      (cfg : AerospikeConfig) (client : Client) (e : Option NamespaceError)
      → ensure_namespace_exists (library.nodes client) cfg.namespace ≡ e
      → check_client cfg client ≡ (elim e [
        | some x ↦ exits (some (library.close client))
        | none ↦
            connected
              (warmed (ltb_ℤ (pos 0) cfg.warm_up_connections) cfg.warm_up_connections client)
      ])
  unfolding check_client
  check_client-cases cfg client e found = rw (check_client, found) refl

  -- A configuration that lists the addresses of hosts, for which the library makes a client whose first node
  -- answers with the namespaces of the cluster, joined by semicolons: if the configured namespace is one of
  -- them, `ConnectDatabase` returns that client, warmed up if the configuration asks for it, and
  -- otherwise it closes that client and exits the process.
  pub connect_database_named :
      (cfg : AerospikeConfig) (h : Host) (hs : List Host) (client : Client) (node : Bytes → Info)
      (nodes : List (Bytes → Info)) (m : List (Bytes × Bytes)) (namespaces : List Bytes)
      → cfg.hosts ≡ map print_host (h ∷ hs)
      → All IsPrintable (h ∷ hs)
      → library.new_client (client_policy cfg) (h ∷ hs) ≡ ok client
      → library.nodes client ≡ node ∷ nodes
      → node (text "namespaces") ≡ info m
      → entry (text "namespaces") m ≡ some (join b';' namespaces)
      → join b';' namespaces ≢ []
      → All (Lacks b';') namespaces
      → (Has cfg.namespace namespaces
          → connect_database cfg
            ≡ connected
                (warmed (ltb_ℤ (pos 0) cfg.warm_up_connections) cfg.warm_up_connections client))
        × ((Has cfg.namespace namespaces → ⊥)
            → connect_database cfg ≡ exits (some (library.close client)))
  unfolding connect_database
  connect_database_named cfg h hs client node nodes m namespaces listed printable made first answers
        joined some_answer bare =
      let opened : connect_database cfg ≡ check_client cfg client =
        ap (client_of cfg) (build_hosts-print_host cfg h hs listed printable)
        ∙ rw (client_of, made) refl in
      let named =
        ensure_namespace_exists-Has node nodes cfg.namespace (join b';' namespaces) m namespaces
          answers joined refl some_answer bare in
      (
        (λ there.
            opened
            ∙ check_client-cases cfg client none
                (ap (λ l. ensure_namespace_exists l cfg.namespace) first ∙ named.1 there)),
        λ missing.
            elim (Option-cases (ensure_namespace_exists (library.nodes client) cfg.namespace)) [
              | inl fine ↦ absurd (
                  missing (
                    named.0 (ap (λ l. ensure_namespace_exists l cfg.namespace) (sym first) ∙ fine)))
              | inr (e, failed) ↦ opened ∙ check_client-cases cfg client (some e) failed
            ],
      )
