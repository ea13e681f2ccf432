-- ===== src/Sockets/Tracking.antt =====
-- The contexts of socket connections (cmd/start.go) that are cancelled or can still be.
use go_template_aerospike.Prelude.{
  ℕ, suc, Bytes, eq_bytes, eq_bytes_iff, eq_bytes_refl, Bool-cases, Option-cases, none, some, List,
  [], ◌∷◌, Has, ◌<◌, ◌≡◌, ◌⊎◌, inl, inr, sym, arith, get_key, get_key-erase_key, get_key-set_key,
}
use go_template_aerospike.Sockets.{
  ConnectionContext, Sockets, no_sockets, cancel_found, cleanup, on_connect, on_error, SocketEvent,
  connect, fail, handle, handle_all,
}

-- Every context that was made is cancelled or in the map.
abbrev pub IsTracked : Sockets → Type 0
IsTracked s =
    (n : ℕ)
    → n < s.next
    → Has n s.cancelled
      ⊎ ((id : Bytes) × (c : ConnectionContext) × (get_key id s.conns ≡ some c) × (c.ctx ≡ n))

-- Each connection has a name that no connection in the map has.
abbrev pub AreFresh : List SocketEvent → Sockets → Type 0
AreFresh [] s = Unit
AreFresh (connect id ∷ es) s = (get_key id s.conns ≡ none) × AreFresh es (on_connect id s)
AreFresh (fail id ∷ es) s = AreFresh es (on_error id s)

last_or_below : (n k : ℕ) → n < suc k → (n ≡ k) ⊎ (n < k)
last_or_below n k h = ground (arith, h)

on_connect-IsTracked :
    (id : Bytes) (s : Sockets)
    → get_key id s.conns ≡ none
    → IsTracked s
    → IsTracked (on_connect id s)
unfolding on_connect
on_connect-IsTracked id s free tracked n below = elim (last_or_below n s.next below) [
  | inl new ↦ inr (
    id,
    record { conn = id; ctx = s.next },
    ground (
      arith,
      get_key-set_key id id (record { conn = id; ctx = s.next }) s.conns,
      eq_bytes_refl id,
    ),
    sym new,
  )
  | inr old ↦ elim (tracked n old) [
    | inl gone ↦ inl gone
    | inr (jd, c, held, same) ↦ inr (
      jd,
      c,
      ground (
        arith,
        held,
        free,
        get_key-set_key id jd (record { conn = id; ctx = s.next }) s.conns,
        eq_bytes_iff id jd,
      ),
      same,
    )
  ]
]

cancel_found-IsTracked :
    (id : Bytes) (c : ConnectionContext) (s : Sockets)
    → get_key id s.conns ≡ some c
    → IsTracked s
    → IsTracked (cancel_found id (some c) s)
cancel_found-IsTracked id c s found tracked n below = elim (tracked n below) [
  | inl gone ↦ inl (inr gone)
  | inr (jd, d, held, same) ↦ elim (Bool-cases (eq_bytes id jd)) [
    | inl this ↦ inl (inl (ground (arith, held, same, found, eq_bytes_iff id jd)))
    | inr other ↦ inr (jd, d, ground (arith, held, get_key-erase_key id jd s.conns), same)
  ]
]

cleanup-IsTracked : (id : Bytes) (s : Sockets) → IsTracked s → IsTracked (cleanup id s)
unfolding cleanup
cleanup-IsTracked id s tracked = elim (Option-cases (get_key id s.conns)) [
  | inl gone ↦ rw (cleanup, gone) tracked
  | inr (c, found) ↦ rw (cleanup, found) (cancel_found-IsTracked id c s found tracked)
]

handle_all-IsTracked :
    (es : List SocketEvent) (s : Sockets)
    → AreFresh es s
    → IsTracked s
    → IsTracked (handle_all es s)
unfolding handle_all handle on_error
handle_all-IsTracked [] s fresh tracked = tracked
handle_all-IsTracked (connect id ∷ es) s (free, fresh) tracked =
    handle_all-IsTracked es (on_connect id s) fresh (on_connect-IsTracked id s free tracked)
handle_all-IsTracked (fail id ∷ es) s fresh tracked =
    handle_all-IsTracked es (cleanup id s) fresh (cleanup-IsTracked id s tracked)

-- When connections come with names that the map does not hold, then after any sequence of connections
-- and errors, from the start, every context that was made is cancelled or in the map.
pub handle_all-tracked :
    (es : List SocketEvent) (n : ℕ)
    → AreFresh es no_sockets
    → n < (handle_all es no_sockets).next
    → Has n (handle_all es no_sockets).cancelled
      ⊎ ((id : Bytes) × (c : ConnectionContext) × (get_key id (handle_all es no_sockets).conns
            ≡ some c)
          × (c.ctx ≡ n))
handle_all-tracked es n fresh below =
    handle_all-IsTracked es no_sockets fresh (λ n h. absurd (omega (arith, h))) n below
