-- ===== src/Hub.antt =====
-- The websocket hub (internal/hapi/websocket/hub.go): its methods put connections and messages into
-- channels, and its goroutine takes them out, one case of its `select` at a time. A connection is a
-- number; the websocket library decides which writes fail.
pub mod Laws
use go_template_aerospike.Prelude.{
  ℕ, Bytes, Bool, Option, none, some, List, [], ◌∷◌, ◌++◌, ◌==◌, ltb, length, if◌then◌else◌, any,
}

pub record Hub : Type 0 where
  -- the keys of the map
  pub clients : List ℕ
  -- the channels, oldest first
  pub register_ch : List ℕ
  pub unregister_ch : List ℕ
  pub broadcast_ch : List Bytes
  -- the connections that were closed, and the messages that were written, oldest first
  pub closed : List ℕ
  pub written : List (ℕ × Bytes)

abbrev pub new_hub : Hub
new_hub = record {
  clients = [];
  register_ch = [];
  unregister_ch = [];
  broadcast_ch = [];
  closed = [];
  written = [];
}

-- `delete(h.clients, conn)`
unfoldable pub drop_client : ℕ → List ℕ → List ℕ
drop_client c [] = []
drop_client c (x ∷ xs) = let rest = drop_client c xs in if x == c then rest else x ∷ rest

-- A send to a full channel waits: `none`.
unfoldable pub register : ℕ → Hub → Option Hub
register c h =
    if ltb (length h.register_ch) 16
    then some (record h { register_ch = h.register_ch ++ c ∷ [] })
    else none

unfoldable pub unregister : ℕ → Hub → Option Hub
unregister c h =
    if ltb (length h.unregister_ch) 16
    then some (record h { unregister_ch = h.unregister_ch ++ c ∷ [] })
    else none

-- A message for a full channel is dropped.
unfoldable pub broadcast : Bytes → Hub → Hub
broadcast m h =
    if ltb (length h.broadcast_ch) 64
    then record h { broadcast_ch = h.broadcast_ch ++ m ∷ [] }
    else h

-- The cases of `run`.
unfoldable pub add_client : ℕ → Hub → Hub
unfolding drop_client
add_client c h = record h { clients = c ∷ drop_client c h.clients }

unfoldable pub close_client : ℕ → Hub → Hub
unfolding drop_client
close_client c h = record h { clients = drop_client c h.clients; closed = h.closed ++ c ∷ [] }

unfoldable pub remove_client : ℕ → Hub → Hub
remove_client c h = if any (λ x. x == c) h.clients then close_client c h else h

unfoldable pub write_each : (ℕ → Bool) → Bytes → List ℕ → Hub → Hub
write_each fails m [] h = h
write_each fails m (c ∷ cs) h =
    write_each fails m cs
      (if fails c then close_client c h else record h { written = h.written ++ (c, m) ∷ [] })

unfoldable pub take_register : List ℕ → Hub → Hub
take_register [] h = h
take_register (c ∷ rest) h = add_client c (record h { register_ch = rest })

unfoldable pub take_unregister : List ℕ → Hub → Hub
take_unregister [] h = h
take_unregister (c ∷ rest) h = remove_client c (record h { unregister_ch = rest })

-- `order` is the order in which `range` visits the clients.
unfoldable pub take_broadcast : (List ℕ → List ℕ) → (ℕ → Bool) → List Bytes → Hub → Hub
take_broadcast order fails [] h = h
take_broadcast order fails (m ∷ rest) h =
    write_each fails m (order h.clients) (record h { broadcast_ch = rest })
