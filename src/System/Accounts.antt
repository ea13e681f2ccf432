-- ===== src/System/Accounts.antt =====
-- What holds of the rows and the handlers after every event but a delivery
-- (internal/service/track.go, track_history.go).
use go_template_aerospike.Prelude.{
  ℕ, ◌+◌, ◌≤◌, ℤ, true, Option, some, List, [], ◌∷◌, ◌++◌, ◌≡◌, refl, sym, ap, ◌∙◌, arith, Outcome,
  returned, panicked, blocked, length, append_assoc, append-nil, Option-cases, inl, inr, take_out,
}
use go_template_aerospike.Track.{TrackHistory}
use go_template_aerospike.Service.{World, Service, channel_capacity}
use go_template_aerospike.Batch.{Event, received}
use go_template_aerospike.Batch.Laws.{join, rows_of, round-all_rows}
use go_template_aerospike.System.{
  Handler, advance, System, runs, still_there, went, write, run_handler, take_row,
}
use go_template_aerospike.System.Trace.{
  Message, counted, counted-append, Each, Each-append, Each-take_out, rows, sent, sent_by, IsRowOf,
  IsFrom,
}
use go_template_aerospike.System.Steps.{like, IsAdvance, IsFine, advance-IsFine}

module _ {Db : Type 0} (w : World Db) where
  -- What holds once these messages were delivered: each row and each handler has a message, and no message
  -- stands for more of them than it was delivered times.
  pub record IsAccounted (ms : List Message) (sys : System Db) : Type 0 where
    pub row_from : List Message
    pub hand_from : List Message
    pub made : Each (IsRowOf w) row_from (rows sys)
    pub hands : Each (IsFrom w) hand_from sys.handlers
    pub once : (x : Message) → counted x row_from + counted x hand_from ≤ counted x ms
    pub bound : length sys.service.history_ch ≤ channel_capacity

  -- The others' messages, where a handler with this message was taken out.
  abbrev IsRest :
      (ms : List Message) (sys : System Db) → IsAccounted ms sys → Message → List Message → Type 0
  IsRest ms sys a m ns = (x : Message) → counted x a.hand_from ≡ counted x (m ∷ ns)

  returned-step :
      (ms : List Message) (h : Handler) (rest : List Handler) (sys : System Db) (s : Service Db)
      (next : Option Handler) (m : Message) (ns : List Message) (a : IsAccounted ms sys)
      → IsAdvance w m h sys.service s next
      → Each (IsFrom w) ns rest
      → IsRest ms sys a m ns
      → IsAccounted ms (record sys { service = s; handlers = still_there next ++ rest })
        × (rows (record sys { service = s; handlers = still_there next ++ rest })
            ≡ rows sys ++ sent h)
  returned-step ms h rest sys s next m ns a fine others fewer =
      let sys' = record sys { service = s; handlers = still_there next ++ rest } in
      let longer : rows sys' ≡ rows sys ++ sent h =
        ap (λ l. (join sys.writer.flushed ++ sys.writer.batch) ++ l) fine.queued
        ∙ sym (
            append_assoc (join sys.writer.flushed ++ sys.writer.batch) sys.service.history_ch
              (sent h)) in
      (
        record {
          row_from = a.row_from ++ fine.sent_from;
          hand_from = like m next ++ ns;
          made = rw longer (
              Each-append (IsRowOf w) a.row_from fine.sent_from (rows sys) (sent h) a.made
                fine.made);
          hands =
              Each-append (IsFrom w) (like m next) ns (still_there next) rest fine.source others;
          once = λ x. omega (
            arith,
            counted-append x a.row_from fine.sent_from,
            counted-append x (like m next) ns,
            fine.single x,
            a.once x,
            fewer x,
          );
          bound = fine.room a.bound;
        },
        longer,
      )

  panicked-step :
      (ms : List Message) (rest : List Handler) (sys : System Db) (s : Service Db) (m : Message)
      (ns : List Message) (a : IsAccounted ms sys)
      → s.history_ch ≡ sys.service.history_ch
      → Each (IsFrom w) ns rest
      → IsRest ms sys a m ns
      → IsAccounted ms (record sys { service = s; handlers = rest; crashed = true })
        × (rows (record sys { service = s; handlers = rest; crashed = true }) ≡ rows sys)
  panicked-step ms rest sys s m ns a same others fewer = (
    record {
      row_from = a.row_from;
      hand_from = ns;
      made = rw same a.made;
      hands = others;
      once = λ x. omega (arith, a.once x, fewer x);
      bound = rw same a.bound;
    },
    ap (λ l. (join sys.writer.flushed ++ sys.writer.batch) ++ l) same,
  )

  went-step :
      (ms : List Message) (h : Handler) (rest : List Handler) (sys sys' : System Db)
      (o : Outcome (Service Db) (Option Handler)) (m : Message) (ns : List Message)
      (a : IsAccounted ms sys)
      → went rest sys o ≡ some sys'
      → IsFine w m h sys.service o
      → Each (IsFrom w) ns rest
      → IsRest ms sys a m ns
      → IsAccounted ms sys' × (rows sys' ≡ rows sys ++ sent h)
  unfolding went
  went-step ms h rest sys sys' (returned next s) m ns a e fine others fewer =
      let same : record sys { service = s; handlers = still_there next ++ rest } ≡ sys' = cc in
      rw (← same) (returned-step ms h rest sys s next m ns a fine others fewer)
  went-step ms h rest sys sys' (panicked s) m ns a e (quiet, nothing) others fewer =
      let same : record sys { service = s; handlers = rest; crashed = true } ≡ sys' = cc in
      let (b, kept) = panicked-step ms rest sys s m ns a quiet others fewer in
      rw (← same) (b, kept ∙ sym (append-nil (rows sys)) ∙ ap (λ l. rows sys ++ l) (sym nothing))
  went-step ms h rest sys sys' (blocked s) m ns a e fine others fewer = absurd (ground arith)

  pub run_handler-step :
      (ms : List Message) (i : ℕ) (now : ℤ) (sys sys' : System Db)
      → run_handler w now (take_out i sys.handlers) sys ≡ some sys'
      → IsAccounted ms sys
      → IsAccounted ms sys' × (rows sys' ≡ rows sys ++ sent_by (runs i now) sys)
  unfolding run_handler
  run_handler-step ms i now sys sys' e a = elim (Option-cases (take_out i sys.handlers)) [
    | inl absent ↦ absurd (ground arith)
    | inr ((h, rest), out) ↦
        let (m, ns, from, others, fewer) =
          Each-take_out (IsFrom w) i a.hand_from sys.handlers rest h out a.hands in
        rw out (
          went-step ms h rest sys sys' (advance w now h sys.service) m ns a (rw out at e)
            (advance-IsFine w m now h sys.service from) others fewer)
  ]

module _ {Db : Type 0} (w : World Db) (batch_size : ℕ) where
  -- A round of the writer leaves the handlers and the channel alone, and keeps its rows in order.
  pub write-rows :
      (e : Event) (sys : System Db)
      → ((write w batch_size e sys).service.history_ch ≡ sys.service.history_ch)
        × ((write w batch_size e sys).handlers ≡ sys.handlers)
        × (rows (write w batch_size e sys)
            ≡ ((join sys.writer.flushed ++ sys.writer.batch) ++ rows_of (e ∷ []))
              ++ sys.service.history_ch)
  unfolding write
  write-rows e sys = (
    refl,
    refl,
    ap (λ l. l ++ sys.service.history_ch)
        (round-all_rows w.client w.namespace batch_size e
          (record sys.writer { db = sys.service.db })),
  )

  -- A round that keeps the rows and shortens the channel at most.
  write-step :
      (ms : List Message) (e : Event) (sys start : System Db)
      → rows (write w batch_size e sys) ≡ rows start
      → sys.handlers ≡ start.handlers
      → length sys.service.history_ch ≤ length start.service.history_ch
      → IsAccounted w ms start
      → IsAccounted w ms (write w batch_size e sys) × (rows (write w batch_size e sys) ≡ rows start)
  write-step ms e sys start kept same less a =
      let (ch, hands, _) = write-rows e sys in
      (
        record {
          row_from = a.row_from;
          hand_from = a.hand_from;
          made = rw kept a.made;
          hands = rw (hands, same) a.hands;
          once = a.once;
          bound = rw ch (omega (arith, less, a.bound));
        },
        kept,
      )

  -- A row that is taken out of the channel stays among the rows.
  pub taken_row-rows :
      (h : TrackHistory) (hs : List TrackHistory) (sys : System Db)
      → sys.service.history_ch ≡ h ∷ hs
      → rows (
          write w batch_size
            (received h)
            (record sys { service = record sys.service { history_ch = hs } }))
        ≡ rows sys
  taken_row-rows h hs sys ch =
      let (_, _, after) =
        write-rows (received h) (record sys { service = record sys.service { history_ch = hs } }) in
      after
      ∙ append_assoc (join sys.writer.flushed ++ sys.writer.batch) (h ∷ []) hs
      ∙ ap (λ l. (join sys.writer.flushed ++ sys.writer.batch) ++ l) (sym ch)

  pub take_row-step :
      (ms : List Message) (q : List TrackHistory) (sys sys' : System Db)
      → sys.service.history_ch ≡ q
      → take_row w batch_size q sys ≡ some sys'
      → IsAccounted w ms sys
      → IsAccounted w ms sys' × (rows sys' ≡ rows sys)
  unfolding take_row
  take_row-step ms [] sys sys' ch e a = absurd (ground arith)
  take_row-step ms (h ∷ hs) sys sys' ch e a =
      let left = record sys { service = record sys.service { history_ch = hs } } in
      let same : write w batch_size (received h) left ≡ sys' = cc in
      rw (← same) (
        write-step ms (received h) left sys (taken_row-rows h hs sys ch) refl (rw ch (omega arith))
          a)

  -- A round that takes no row.
  pub quiet_round-rows :
      (e : Event) (sys : System Db)
      → rows_of (e ∷ []) ≡ []
      → rows (write w batch_size e sys) ≡ rows sys
  quiet_round-rows e sys none_taken =
      let (_, _, after) = write-rows e sys in
      after
      ∙ ap (λ l. ((join sys.writer.flushed ++ sys.writer.batch) ++ l) ++ sys.service.history_ch)
          none_taken
      ∙ ap (λ l. l ++ sys.service.history_ch) (append-nil _)

  pub quiet_round-step :
      (ms : List Message) (e : Event) (sys : System Db)
      → rows_of (e ∷ []) ≡ []
      → IsAccounted w ms sys
      → IsAccounted w ms (write w batch_size e sys) × (rows (write w batch_size e sys) ≡ rows sys)
  quiet_round-step ms e sys none_taken a =
      write-step ms e sys sys (quiet_round-rows e sys none_taken) refl (omega arith) a
