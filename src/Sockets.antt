-- ===== src/Sockets.antt =====
-- The socket handlers of `runServer` (cmd/start.go) and the map of connections that they share; its lock
-- makes each handler one step. Cancelling a context and leaving rooms are recorded.
pub mod Contexts
pub mod Tracking
use go_template_aerospike.Prelude.{
  ℕ, suc, Bytes, Option, none, some, List, [], ◌∷◌, ◌++◌, Checked, value, panic, Dict, get_key,
  erase_key, set_key,
}

-- `connectionContext`: the context and the function that cancels it are the context's number.
pub record ConnectionContext : Type 0 where
  pub conn : Bytes
  pub ctx : ℕ

pub record Sockets : Type 0 where
  pub conns : Dict ConnectionContext
  -- how many contexts were made
  pub next : ℕ
  pub cancelled : List ℕ
  -- the connections that were sent the greeting, and those that left their rooms
  pub greeted : List Bytes
  pub left_rooms : List Bytes

abbrev pub no_sockets : Sockets
no_sockets = record { conns = []; next = 0; cancelled = []; greeted = []; left_rooms = [] }

abbrev pub leave_all : Bytes → Sockets → Sockets
leave_all id s = record s { left_rooms = s.left_rooms ++ id ∷ [] }

abbrev pub cancel_found : Bytes → Option ConnectionContext → Sockets → Sockets
cancel_found id none s = s
cancel_found id (some c) s = record s {
  conns = erase_key id s.conns;
  cancelled = c.ctx ∷ s.cancelled;
}

unfoldable pub cleanup : Bytes → Sockets → Sockets
unfolding get_key
cleanup id s = leave_all id (cancel_found id (get_key id s.conns) s)

unfoldable pub on_connect : Bytes → Sockets → Sockets
unfolding set_key
on_connect id s = record s {
  conns = set_key id (record { conn = id; ctx = s.next }) s.conns;
  next = suc s.next;
  greeted = s.greeted ++ id ∷ [];
}

unfoldable pub on_error : Bytes → Sockets → Sockets
unfolding cleanup
on_error id s = cleanup id s

-- The handler reads `err`, the variable of `runServer`: without an error its `Error()` panics.
unfoldable pub on_disconnect : Option Bytes → Bytes → Sockets → Checked Sockets
unfolding cleanup
on_disconnect none id s = panic
on_disconnect (some err) id s = value (cleanup id s)

pub data SocketEvent : Type 0 where
  connect : Bytes → SocketEvent
  fail : Bytes → SocketEvent

unfoldable pub handle : SocketEvent → Sockets → Sockets
unfolding on_connect on_error
handle (connect id) s = on_connect id s
handle (fail id) s = on_error id s

unfoldable pub handle_all : List SocketEvent → Sockets → Sockets
unfolding handle
handle_all [] s = s
handle_all (e ∷ es) s = handle_all es (handle e s)
