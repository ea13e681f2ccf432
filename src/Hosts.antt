-- ===== src/Hosts.antt =====
-- The connection to Aerospike (internal/db/aerospikedb.go, internal/config/dbconfig.go): the addresses
-- of the cluster, the check of the namespace, and the secondary indexes (`MigrateDB`,
-- internal/service/main_service.go). Of the configuration this is what they read.
pub mod Laws
pub mod Connect
pub mod Indexes
use go_template_aerospike.Prelude.{
  split, join, ℕ, zero, suc, ℤ, Bytes, Bool, text, eq_bytes, ◌||◌, ◌&&◌, Option, none, some, List,
  [], ◌∷◌, length, drop, if◌then◌else◌, ltb, leb, ◌==◌, any, atoi,
}
use go_template_aerospike.Aerospike.{AsError}

pub record AerospikeConfig : Type 0 where
  pub host : Bytes
  pub port : ℤ
  pub hosts : List Bytes
  pub namespace : Bytes
  pub user : Bytes
  pub pass : Bytes
  pub connection_queue_size : ℤ
  pub min_connections_per_node : ℤ
  pub idle_timeout_ms : ℤ
  pub connect_timeout_ms : ℤ
  pub tend_interval_ms : ℤ
  pub warm_up_connections : ℤ
  pub use_services_alternate : Bool

pub record Host : Type 0 where
  pub name : Bytes
  pub port : ℤ

-- How many bytes the white space at the start of a text has: the ASCII characters, then those of
-- Unicode's White_Space, in UTF-8.
abbrev pub space_width : Bytes → ℕ
space_width [] = 0
space_width (a ∷ []) = if a == 32 || (leb 9 a && leb a 13) then 1 else 0
space_width (a ∷ b ∷ []) =
    if a == 32 || (leb 9 a && leb a 13)
    then 1
    else if a == 0xc2 && (b == 0x85 || b == 0xa0)
    then 2
    else 0
space_width (a ∷ b ∷ c ∷ s) =
    if a == 32 || (leb 9 a && leb a 13)
    then 1
    else if a == 0xc2 && (b == 0x85 || b == 0xa0)
    then 2
    else if (a == 0xe1 && (b == 0x9a && c == 0x80))
        || ((a == 0xe2
              && (b == 0x80
                  && ((leb 0x80 c && leb c 0x8a) || (c == 0xa8 || (c == 0xa9 || c == 0xaf)))))
            || ((a == 0xe2 && (b == 0x81 && c == 0x9f)) || (a == 0xe3 && (b == 0x80 && c == 0x80))))
    then 3
    else 0

abbrev pub reverse_onto : Bytes → Bytes → Bytes
reverse_onto [] out = out
reverse_onto (a ∷ s) out = reverse_onto s (a ∷ out)

-- The white space at the end of a text, whose last bytes come first here.
abbrev pub space_width_back : Bytes → ℕ
space_width_back [] = 0
space_width_back (a ∷ []) = space_width (a ∷ [])
space_width_back (a ∷ b ∷ []) =
    if ltb 0 (space_width (a ∷ [])) then 1 else if space_width (b ∷ a ∷ []) == 2 then 2 else 0
space_width_back (a ∷ b ∷ c ∷ s) =
    if ltb 0 (space_width (a ∷ []))
    then 1
    else if space_width (b ∷ a ∷ []) == 2
    then 2
    else if space_width (c ∷ b ∷ a ∷ []) == 3
    then 3
    else 0

unfoldable pub trim_start : (Bytes → ℕ) → ℕ → Bytes → Bytes
trim_start width zero s = s
trim_start width (suc fuel) s =
    let rest = trim_start width fuel (drop (width s) s) in if width s == 0 then s else rest

-- `strings.TrimSpace`; every round takes a byte away, so the length is enough fuel.
unfoldable pub trim_space : Bytes → Bytes
unfolding trim_start
trim_space s =
    let left = trim_start space_width (length s) s in
    let back = trim_start space_width_back (length left) (reverse_onto left []) in
    reverse_onto back []

-- The last part, and those before it.
abbrev pub last_of : Bytes → List Bytes → Bytes
last_of p [] = p
last_of p (q ∷ qs) = last_of q qs

abbrev pub but_last : Bytes → List Bytes → List Bytes
but_last p [] = []
but_last p (q ∷ qs) = p ∷ but_last q qs

-- `none` is a port that `Atoi` refuses.
unfoldable pub host_of_parts : ℤ → Bytes → List Bytes → Option Host
host_of_parts default raw [] = some (record { name = raw; port = default })
host_of_parts default raw (p ∷ []) = some (record { name = raw; port = default })
host_of_parts default raw (p ∷ q ∷ qs) =
    let port = atoi (last_of q qs) in
    if port.failed
    then none
    else some (record { name = join b':' (but_last p (q ∷ qs)); port = port.value })

unfoldable pub parse_host : ℤ → Bytes → Option Host
unfolding split
parse_host default raw = host_of_parts default raw (split b':' raw)

pub data Built : Type 0 where
  built : List Host → Built
  bad_port : Bytes → Built
  no_hosts : Built

abbrev pub prepend_host : Host → Built → Built
prepend_host h (built hs) = built (h ∷ hs)
prepend_host h (bad_port raw) = bad_port raw
prepend_host h no_hosts = no_hosts

unfoldable pub add_host : ℤ → Bytes → Built → Built
add_host default [] others = others
add_host default (b ∷ bs) others = elim (parse_host default (b ∷ bs)) [
  | none ↦ bad_port (b ∷ bs)
  | some h ↦ prepend_host h others
]

-- The loop of `buildHosts`.
unfoldable pub add_hosts : ℤ → List Bytes → Built
unfolding add_host
add_hosts default [] = built []
add_hosts default (raw ∷ rest) = add_host default (trim_space raw) (add_hosts default rest)

abbrev pub some_hosts : Built → Built
some_hosts (built []) = no_hosts
some_hosts (built (h ∷ hs)) = built (h ∷ hs)
some_hosts (bad_port raw) = bad_port raw
some_hosts no_hosts = no_hosts

unfoldable pub build_hosts : AerospikeConfig → Built
build_hosts cfg = elim cfg.hosts [
  | [] ↦ built (record { name = cfg.host; port = cfg.port } ∷ [])
  | raw ∷ rest ↦ some_hosts (add_hosts cfg.port (raw ∷ rest))
]

-- What a node answers to `RequestInfo`.
pub data Info : Type 0 where
  info_error : AsError → Info
  info : List (Bytes × Bytes) → Info

pub data NamespaceError : Type 0 where
  empty_cluster not_retrieved not_found : NamespaceError
  request_failed : AsError → NamespaceError

abbrev pub entry : Bytes → List (Bytes × Bytes) → Option Bytes
entry k [] = none
entry k ((j, v) ∷ m) = let rest = entry k m in if eq_bytes j k then some v else rest

unfoldable pub search_namespaces : Bytes → Option Bytes → Option NamespaceError
unfolding split
search_namespaces namespace none = some not_retrieved
search_namespaces namespace (some []) = some not_retrieved
search_namespaces namespace (some (b ∷ bs)) =
    if any (λ ns. eq_bytes ns namespace) (split b';' (b ∷ bs)) then none else some not_found

-- `none` is the nil error.
unfoldable pub ensure_namespace_exists : List (Bytes → Info) → Bytes → Option NamespaceError
unfolding search_namespaces
ensure_namespace_exists [] namespace = some empty_cluster
ensure_namespace_exists (node ∷ nodes) namespace = elim (node (text "namespaces")) [
  | info_error e ↦ some (request_failed e)
  | info m ↦ search_namespaces namespace (entry (text "namespaces") m)
]
