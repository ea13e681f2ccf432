-- ===== src/Hosts/Laws.antt =====
-- Reading back the addresses and the namespaces that a configuration or a node writes
-- (internal/db/aerospikedb.go).
use go_template_aerospike.Prelude.{
  split, join, split-ne-nil, split-Lacks, split-append, join-split, split-join, ℕ, ℤ, Bytes, text,
  eq_bytes, eq_bytes_iff, true, none, some, List, [], ◌∷◌, ◌++◌, ◌≡◌, ◌≢◌, ◌↔◌, refl, ap, ◌∙◌,
  arith, map, any, ◌^◌, atoi, show_int, show_int-Lacks, parse_int-show_int, good, Lacks, IsInt64,
  All, Has,
}
use go_template_aerospike.Hosts.{
  AerospikeConfig, Host, trim_space, last_of, but_last, host_of_parts, parse_host, Built, built,
  prepend_host, add_host, add_hosts, some_hosts, build_hosts, Info, info, entry, search_namespaces,
  ensure_namespace_exists,
}

last_of-snoc : (p l : Bytes) (ps : List Bytes) → last_of p (ps ++ l ∷ []) ≡ l
last_of-snoc p l [] = refl
last_of-snoc p l (q ∷ qs) = last_of-snoc q l qs

but_last-snoc : (p l : Bytes) (ps : List Bytes) → but_last p (ps ++ l ∷ []) ≡ p ∷ ps
but_last-snoc p l [] = refl
but_last-snoc p l (q ∷ qs) = ap (λ k. p ∷ k) (but_last-snoc q l qs)

host_of_parts-snoc :
    (default : ℤ) (raw p l : Bytes) (ps : List Bytes) (port : ℤ)
    → atoi l ≡ good port
    → host_of_parts default raw ((p ∷ ps) ++ l ∷ [])
      ≡ some (record { name = join b':' (p ∷ ps); port = port })
unfolding host_of_parts
host_of_parts-snoc default raw p l [] port h = rw h refl
host_of_parts-snoc default raw p l (q ∷ qs) port h =
    rw (last_of-snoc q l qs) (rw (but_last-snoc q l qs) (rw h refl))

-- The address of a host: its name, a colon, and its port.
abbrev pub print_host : Host → Bytes
print_host h = h.name ++ b':' ∷ show_int h.port

parse_host-print_host :
    (default : ℤ) (h : Host) → IsInt64 h.port → parse_host default (print_host h) ≡ some h
unfolding parse_host
parse_host-print_host default h fits =
    let (p, (ps, e)) = split-ne-nil b':' h.name in
    let name_back = rw e at (join-split b':' h.name) in
    let port_back : atoi (show_int h.port) ≡ good h.port =
      unfold atoi in parse_int-show_int (2 ^ 63) h.port fits in
    rw (split-append b':' h.name (show_int h.port)) (
      rw (split-Lacks b':' (show_int h.port) (show_int-Lacks h.port)) (
        rw e (
          host_of_parts-snoc default (print_host h) p (show_int h.port) ps h.port port_back
          ∙ ap (λ n. some (record { name = n; port = h.port })) name_back)))

-- A host whose address has no white space around it, and a port that an int holds.
abbrev pub IsPrintable : Host → Type 0
IsPrintable h = IsInt64 h.port × (trim_space (print_host h) ≡ print_host h)

add_host-some :
    (default : ℤ) (raw : Bytes) (h : Host) (others : Built)
    → raw ≢ []
    → parse_host default raw ≡ some h
    → add_host default raw others ≡ prepend_host h others
unfolding add_host
add_host-some default [] h others k e = absurd (k refl)
add_host-some default (b ∷ bs) h others k e = rw (e, add_host) refl

print_host-ne-nil : (name rest : Bytes) (c : ℕ) → name ++ c ∷ rest ≢ []
print_host-ne-nil [] rest c e = ground arith
print_host-ne-nil (x ∷ name) rest c e = ground arith

add_hosts-print_host :
    (default : ℤ) (hs : List Host)
    → All IsPrintable hs
    → add_hosts default (map print_host hs) ≡ built hs
unfolding add_hosts
add_hosts-print_host default [] h = refl
add_hosts-print_host default (x ∷ hs) ((fits, bare), h) = rw bare (
    rw (add_hosts-print_host default hs h) (
      add_host-some default (print_host x) x (built hs)
        (print_host-ne-nil x.name (show_int x.port) b':') (parse_host-print_host default x fits)))

-- A configuration that lists the addresses of hosts, each its name, a colon and its port, gives those
-- hosts back, in their order, whatever their names hold, further colons included; it needs ports that
-- an int holds and names without white space at their start.
pub build_hosts-print_host :
    (cfg : AerospikeConfig) (h : Host) (hs : List Host)
    → cfg.hosts ≡ map print_host (h ∷ hs)
    → All IsPrintable (h ∷ hs)
    → build_hosts cfg ≡ built (h ∷ hs)
unfolding build_hosts
build_hosts-print_host cfg h hs e k =
    rw e (ap some_hosts (add_hosts-print_host cfg.port (h ∷ hs) k))

any-Has : (ns : Bytes) (l : List Bytes) → (any (λ x. eq_bytes x ns) l ≡ true) ↔ Has ns l
any-Has ns [] = ground arith
any-Has ns (x ∷ l) = ground (arith, any-Has ns l, eq_bytes_iff x ns)

search_namespaces-Has :
    (ns answer : Bytes) (l : List Bytes)
    → answer ≢ []
    → split b';' answer ≡ l
    → (search_namespaces ns (some answer) ≡ none) ↔ Has ns l
unfolding search_namespaces
search_namespaces-Has ns [] l h e = absurd (h refl)
search_namespaces-Has ns (b ∷ bs) l h e = rw e (ground (arith, any-Has ns l))

-- When the first node answers with the namespaces of the cluster, joined by semicolons, the check
-- passes exactly when the configured namespace is one of them.
pub ensure_namespace_exists-Has :
    (node : Bytes → Info) (nodes : List (Bytes → Info)) (namespace answer : Bytes)
    (m : List (Bytes × Bytes)) (namespaces : List Bytes)
    → node (text "namespaces") ≡ info m
    → entry (text "namespaces") m ≡ some answer
    → answer ≡ join b';' namespaces
    → answer ≢ []
    → All (Lacks b';') namespaces
    → (ensure_namespace_exists (node ∷ nodes) namespace ≡ none) ↔ Has namespace namespaces
unfolding ensure_namespace_exists
ensure_namespace_exists-Has node nodes namespace answer m [] e1 e2 e3 h hs = absurd (h e3)
ensure_namespace_exists-Has node nodes namespace answer m (n ∷ ns) e1 e2 e3 h hs = rw e1 (
    rw e2 (
      search_namespaces-Has namespace answer (n ∷ ns) h
        (ap (split b';') e3 ∙ split-join b';' (n ∷ ns) (λ z. ground arith) hs)))
