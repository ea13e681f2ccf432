-- ===== src/Sockets/Contexts.antt =====
-- The contexts in the map of socket connections (cmd/start.go).
use go_template_aerospike.Prelude.{
  ℕ, Bytes, eq_bytes_iff, Option-cases, some, List, [], ◌∷◌, Has, ◌<◌, ◌≡◌, ◌⊎◌, inl, inr, arith,
  get_key, get_key-erase_key, get_key-set_key,
}
use go_template_aerospike.Sockets.{
  ConnectionContext, Sockets, no_sockets, leave_all, cancel_found, cleanup, on_connect, on_error,
  SocketEvent, connect, fail, handle, handle_all,
}

-- What the map holds under a name: a context that was made, for this connection, and not cancelled;
-- two names never share one.
pub record IsLive (s : Sockets) : Type 0 where
  pub made : (id : Bytes) (c : ConnectionContext) → get_key id s.conns ≡ some c → c.ctx < s.next
  pub own : (id : Bytes) (c : ConnectionContext) → get_key id s.conns ≡ some c → c.conn ≡ id
  pub running :
      (id : Bytes) (c : ConnectionContext) → get_key id s.conns ≡ some c → ¬ Has c.ctx s.cancelled
  pub past : (n : ℕ) → Has n s.cancelled → n < s.next
  pub apart :
      (id jd : Bytes) (c d : ConnectionContext)
      → get_key id s.conns ≡ some c
      → get_key jd s.conns ≡ some d
      → c.ctx ≡ d.ctx
      → id ≡ jd

on_connect-IsLive : (id : Bytes) (s : Sockets) → IsLive s → IsLive (on_connect id s)
unfolding on_connect
on_connect-IsLive id s live = record {
  made = λ jd c h. ground (
    arith,
    h,
    get_key-set_key id jd (record { conn = id; ctx = s.next }) s.conns,
    live.made jd c,
  );
  own = λ jd c h. ground (
    arith,
    h,
    get_key-set_key id jd (record { conn = id; ctx = s.next }) s.conns,
    live.own jd c,
    eq_bytes_iff id jd,
  );
  running = λ jd c h cancelled. ground (
    arith,
    h,
    cancelled,
    get_key-set_key id jd (record { conn = id; ctx = s.next }) s.conns,
    live.running jd c,
    live.past c.ctx,
  );
  past = λ n h. omega (arith, live.past n h);
  apart = λ jd kd c d h g e. ground (
    arith,
    h,
    g,
    e,
    get_key-set_key id jd (record { conn = id; ctx = s.next }) s.conns,
    get_key-set_key id kd (record { conn = id; ctx = s.next }) s.conns,
    live.apart jd kd c d,
    live.made jd c,
    live.made kd d,
    eq_bytes_iff id jd,
    eq_bytes_iff id kd,
  );
}

cancel_found-IsLive :
    (id : Bytes) (c : ConnectionContext) (s : Sockets)
    → get_key id s.conns ≡ some c
    → IsLive s
    → IsLive (cancel_found id (some c) s)
cancel_found-IsLive id c s found live = record {
  made = λ jd d h. ground (arith, h, get_key-erase_key id jd s.conns, live.made jd d);
  own = λ jd d h. ground (arith, h, get_key-erase_key id jd s.conns, live.own jd d);
  running = λ jd d h cancelled. ground (
    arith,
    h,
    cancelled,
    found,
    get_key-erase_key id jd s.conns,
    live.running jd d,
    live.apart id jd c d,
    eq_bytes_iff id jd,
  );
  past = λ n h. ground (arith, h, live.past n, live.made id c found);
  apart = λ jd kd d e h g same. ground (
    arith,
    h,
    g,
    same,
    get_key-erase_key id jd s.conns,
    get_key-erase_key id kd s.conns,
    live.apart jd kd d e,
  );
}

leave_all-IsLive : (id : Bytes) (s : Sockets) → IsLive s → IsLive (leave_all id s)
leave_all-IsLive id s live = record {
  made = live.made;
  own = live.own;
  running = live.running;
  past = live.past;
  apart = live.apart;
}

cleanup-IsLive : (id : Bytes) (s : Sockets) → IsLive s → IsLive (cleanup id s)
unfolding cleanup
cleanup-IsLive id s live = elim (Option-cases (get_key id s.conns)) [
  | inl gone ↦ rw (cleanup, gone) (leave_all-IsLive id s live)
  | inr (c, found) ↦
      rw (cleanup, found)
        (leave_all-IsLive id (cancel_found id (some c) s) (cancel_found-IsLive id c s found live))
]

handle-IsLive : (e : SocketEvent) (s : Sockets) → IsLive s → IsLive (handle e s)
unfolding handle on_error
handle-IsLive (connect id) s live = on_connect-IsLive id s live
handle-IsLive (fail id) s live = cleanup-IsLive id s live

handle_all-IsLive : (es : List SocketEvent) (s : Sockets) → IsLive s → IsLive (handle_all es s)
unfolding handle_all
handle_all-IsLive [] s live = live
handle_all-IsLive (e ∷ es) s live = handle_all-IsLive es (handle e s) (handle-IsLive e s live)

no_sockets-IsLive : IsLive no_sockets
unfolding get_key
no_sockets-IsLive = record {
  made = λ id c h. ground (arith, h);
  own = λ id c h. ground (arith, h);
  running = λ id c h. ground (arith, h);
  past = λ n h. absurd h;
  apart = λ id jd c d h. ground (arith, h);
}

-- After any sequence of connections and errors, from the start: what the map holds under a name is a
-- context that was made for that connection and is not cancelled.
pub handle_all-running :
    (es : List SocketEvent) (id : Bytes) (c : ConnectionContext)
    → get_key id (handle_all es no_sockets).conns ≡ some c
    → (c.conn ≡ id)
      × (c.ctx < (handle_all es no_sockets).next)
      × (¬ Has c.ctx (handle_all es no_sockets).cancelled)
handle_all-running es id c h =
    let live = handle_all-IsLive es no_sockets no_sockets-IsLive in
    (live.own id c h, live.made id c h, live.running id c h)

-- A connection under a name that the map holds loses the context that was there: it is neither
-- cancelled nor in the map afterwards.
pub on_connect-loses :
    (id : Bytes) (s : Sockets) (c : ConnectionContext)
    → IsLive s
    → get_key id s.conns ≡ some c
    → ¬ (
        Has c.ctx (on_connect id s).cancelled
        ⊎ ((jd : Bytes) × (d : ConnectionContext) × (get_key jd (on_connect id s).conns ≡ some d)
            × (d.ctx ≡ c.ctx)))
unfolding on_connect
on_connect-loses id s c live found (inl cancelled) = live.running id c found cancelled
on_connect-loses id s c live found (inr (jd, d, h, same)) = ground (
  arith,
  h,
  same,
  get_key-set_key id jd (record { conn = id; ctx = s.next }) s.conns,
  live.made id c found,
  live.apart id jd c d,
  eq_bytes_iff id jd,
  found,
)
