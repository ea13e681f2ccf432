-- ===== src/Tests/Requests.antt =====
-- Requests, addresses, namespaces and indexes.
use go_template_aerospike.Prelude.{
  pos, negsuc, Bytes, text, eq_bytes, Bool, true, false, List, [], ◌∷◌, ◌≡◌, refl, arith, show_int,
  panic, if◌then◌else◌,
}
use go_template_aerospike.Aerospike.Memory.{Store, memory}
use go_template_aerospike.History.{Reader}
use go_template_aerospike.Service.{Service, new_service}
use go_template_aerospike.Hosts.{AerospikeConfig, Info, info}
use go_template_aerospike.Hosts.Indexes.{Index}
use go_template_aerospike.Http.{find_by_track_id_handler}
use go_template_aerospike.Http.Laws.{find_by_track_id_handler_panics}
use go_template_aerospike.Tests.Sorting.{insertion_sort}
use go_template_aerospike.Tests.Messages.{test_fpu}

abbrev config : AerospikeConfig
config = record {
  host = text "unused";
  port = pos 3000;
  hosts = text "[::1]:3000" ∷ text "node.local:3100" ∷ [];
  namespace = text "test";
  user = text "";
  pass = text "";
  connection_queue_size = pos 100;
  min_connections_per_node = pos 0;
  idle_timeout_ms = pos 0;
  connect_timeout_ms = pos 30000;
  tend_interval_ms = pos 1000;
  warm_up_connections = pos 10;
  use_services_alternate = false;
}

abbrev node : Bytes → Info
node command = info ((command, text "bar;test") ∷ [])

-- A database that knows its indexes by name.
abbrev holds : Index → List Bytes → Bool
holds i [] = false
holds i (n ∷ ns) = let rest = holds i ns in if eq_bytes n i.index_name then true else rest

abbrev idle : Service Store
idle = new_service []

abbrev reader : Reader Store
reader = record {
  client = memory;
  namespace = text "test";
  fpu = test_fpu;
  max_alloc = 100000;
  sort_slice = insertion_sort;
}

negative_size_example :
    find_by_track_id_handler reader (show_int (pos 42)) (show_int (negsuc 4)) [] ≡ panic
unfolding memory
negative_size_example =
    find_by_track_id_handler_panics reader (pos 42) 4 [] [] (omega arith) (omega arith) refl
