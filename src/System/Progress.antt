-- ===== src/System/Progress.antt =====
-- The handlers and the writer never wait for each other for ever (internal/service/track.go,
-- track_history.go).
use go_template_aerospike.Prelude.{
  ℕ, zero, suc, ◌≤◌, ◌<◌, ℤ, true, false, Option, some, List, [], ◌∷◌, ◌++◌, ◌≡◌, ◌⊎◌, refl, ap,
  ◌∙◌, arith, Outcome, returned, panicked, blocked, ltb, length, inl, inr, take_out,
}
use go_template_aerospike.Track.{TrackHistory}
use go_template_aerospike.Service.{World, Service, send_history, channel_capacity}
use go_template_aerospike.System.Rules.{Rule, waits, advance-Rule}
use go_template_aerospike.System.{
  Handler, sending, advance, System, Happening, runs, takes, new_system, still_there, went, write,
  run_handler, take_row, happen_alive, happen, run_system,
}
use go_template_aerospike.System.Rows.{run_system-made}

take_out-within :
    {A : Type 0} (i : ℕ) (xs : List A)
    → i < length xs
    → (x : A) × (rest : List A) × (take_out i xs ≡ some (x, rest))
unfolding take_out
take_out-within i [] h = absurd (omega arith)
take_out-within zero (x ∷ xs) h = (x, xs, refl)
take_out-within (suc i) (x ∷ xs) h =
    let (y, rest, e) = take_out-within i xs (omega arith) in (y, x ∷ rest, rw e refl)

module _ {Db : Type 0} (w : World Db) where
  -- Only a send waits, and only where the channel is full.
  blocked-Rule :
      (now : ℤ) (s s' : Service Db) {h : Handler}
      → Rule w now s h (blocked s')
      → (row : TrackHistory) × (h ≡ sending row) × (channel_capacity ≤ length s.history_ch)
  blocked-Rule now s s' (waits h full) = (h, refl, full)

  advance-blocked :
      (now : ℤ) (h : Handler) (s s' : Service Db)
      → advance w now h s ≡ blocked s'
      → (row : TrackHistory) × (h ≡ sending row) × (channel_capacity ≤ length s.history_ch)
  advance-blocked now h s s' e = blocked-Rule now s s' (rw e at (advance-Rule w now s h))

  Outcome-cases :
      (o : Outcome (Service Db) (Option Handler))
      → ((next : Option Handler) × (s : Service Db) × (o ≡ returned next s))
        ⊎ (((s : Service Db) × (o ≡ panicked s)) ⊎ ((s : Service Db) × (o ≡ blocked s)))
  Outcome-cases (returned next s) = inl (next, s, refl)
  Outcome-cases (panicked s) = inr (inl (s, refl))
  Outcome-cases (blocked s) = inr (inr (s, refl))

-- It can happen.
abbrev pub CanHappen : {Db : Type 0} → World Db → ℕ → Happening → System Db → Type 0
CanHappen {Db} w batch_size e sys = (sys' : System Db) × (happen w batch_size e sys ≡ some sys')

module _ {Db : Type 0} (w : World Db) (batch_size : ℕ) where
  pub alive_happen :
      (e : Happening) (sys sys' : System Db)
      → sys.crashed ≡ false
      → happen_alive w batch_size e sys ≡ some sys'
      → happen w batch_size e sys ≡ some sys'
  unfolding happen
  alive_happen e sys sys' alive h = ground (arith, h, alive)

  send-goes :
      (now : ℤ) (row : TrackHistory) (rest : List Handler) (sys : System Db)
      → length sys.service.history_ch < channel_capacity
      → (sys' : System Db) × (run_handler w now (some (sending row, rest)) sys ≡ some sys')
  unfolding run_handler went advance send_history
  send-goes now row rest sys room =
      let is_room : ltb (length sys.service.history_ch) channel_capacity ≡ true = ground arith in
      (
        record sys {
          service = record sys.service { history_ch = sys.service.history_ch ++ row ∷ [] };
          handlers = rest;
        },
        rw is_room refl,
      )

  -- After the writer took a row, the handlers are the same and the channel has room.
  taken_row :
      (h : TrackHistory) (hs : List TrackHistory) (sys : System Db)
      → sys.crashed ≡ false
      → length (h ∷ hs) ≤ channel_capacity
      → (sys' : System Db) × (take_row w batch_size (h ∷ hs) sys ≡ some sys')
        × (sys'.crashed ≡ false)
        × (sys'.handlers ≡ sys.handlers)
        × (length sys'.service.history_ch < channel_capacity)
  unfolding take_row write
  taken_row h hs sys alive bound = (_, refl, alive, refl, omega arith)

  -- A handler that cannot go on waits for the writer, and no longer once it has taken a row.
  until_taken :
      (i : ℕ) (now : ℤ) (row : TrackHistory) (rest : List Handler) (sys : System Db)
      (q : List TrackHistory)
      → sys.service.history_ch ≡ q
      → sys.crashed ≡ false
      → take_out i sys.handlers ≡ some (sending row, rest)
      → channel_capacity ≤ length q
      → length q ≤ channel_capacity
      → (sys' : System Db) × (happen w batch_size takes sys ≡ some sys')
        × CanHappen w batch_size (runs i now) sys'
  unfolding happen_alive
  until_taken i now row rest sys [] ch alive out full bound = absurd (omega arith)
  until_taken i now row rest sys (h ∷ hs) ch alive out full bound =
      let (sys', took, still_alive, same, room) = taken_row h hs sys alive bound in
      let (after, goes) = send-goes now row rest sys' room in
      (
        sys',
        alive_happen takes sys sys' alive (ap (λ l. take_row w batch_size l sys) ch ∙ took),
        (
          after,
          alive_happen (runs i now) sys' after still_alive (
              ap (λ l. run_handler w now (take_out i l) sys') same
              ∙ ap (λ o. run_handler w now o sys') out
              ∙ goes),
        ),
      )

  goes_or_waits :
      (i : ℕ) (now : ℤ) (h : Handler) (rest : List Handler) (sys : System Db)
      → sys.crashed ≡ false
      → take_out i sys.handlers ≡ some (h, rest)
      → length sys.service.history_ch ≤ channel_capacity
      → CanHappen w batch_size (runs i now) sys
        ⊎ ((sys' : System Db) × (happen w batch_size takes sys ≡ some sys')
            × CanHappen w batch_size (runs i now) sys')
  unfolding happen_alive run_handler went
  goes_or_waits i now h rest sys alive out bound =
      elim (Outcome-cases w (advance w now h sys.service)) [
        | inl (next, s, e) ↦ inl (
          _,
          alive_happen (runs i now) sys
              (record sys { service = s; handlers = still_there next ++ rest }) alive
              (rw (out, e) refl),
        )
        | inr (inl (s, e)) ↦ inl (
          _,
          alive_happen (runs i now) sys
              (record sys { service = s; handlers = rest; crashed = true }) alive
              (rw (out, e) refl),
        )
        | inr (inr (s, e)) ↦
            let (row, is_send, full) = advance-blocked w now h sys.service s e in
            inr (
              until_taken i now row rest sys sys.service.history_ch refl alive
                (out ∙ ap (λ g. some (g, rest)) is_send) full bound)
      ]

-- In every state that an interleaving brought about without a panic, each handler that has not
-- returned can go on, or it waits for the full channel and the writer can take a row, after which
-- the handler can go on: handlers and writer never wait for each other for ever.
pub run_system-progress :
    {Db : Type 0} (w : World Db) (batch_size : ℕ) (es : List Happening) (db : Db) (sys : System Db)
    (i : ℕ) (now : ℤ)
    → run_system w batch_size es (new_system db) ≡ some sys
    → sys.crashed ≡ false
    → i < length sys.handlers
    → CanHappen w batch_size (runs i now) sys
      ⊎ ((sys' : System Db) × (happen w batch_size takes sys ≡ some sys')
          × CanHappen w batch_size (runs i now) sys')
run_system-progress w batch_size es db sys i now h alive within =
    let (h', rest, out) = take_out-within i sys.handlers within in
    let (_, _, _, _, _, bound) = run_system-made w batch_size es db sys h in
    goes_or_waits w batch_size i now h' rest sys alive out bound
