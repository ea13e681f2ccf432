-- ===== src/System/Rows.antt =====
-- The rows of the history between the handlers, the channel, the writer and the database
-- (internal/service/track.go, track_history.go), whatever the interleaving.
use go_template_aerospike.Prelude.{
  ℕ, ◌+◌, ◌≤◌, some, List, [], ◌∷◌, ◌++◌, ◌≡◌, refl, sym, ap, ◌∙◌, arith, length, append_assoc,
  append-nil,
}
use go_template_aerospike.Service.{World, new_service, channel_capacity}
use go_template_aerospike.Batch.{ticked, expired}
use go_template_aerospike.System.{
  arrived, System, Happening, delivers, runs, takes, ticks, expires, new_system, write, happen,
  happen_alive, run_system, happen_goes, run_system_goes,
}
use go_template_aerospike.System.Trace.{
  Message, counted, counted-append, Each, Each-append, delivered_by, delivered, rows, sent_by,
  sent_in, IsRowOf, IsFrom,
}
use go_template_aerospike.System.Accounts.{
  IsAccounted, run_handler-step, take_row-step, quiet_round-step,
}

module _ {Db : Type 0} (w : World Db) (batch_size : ℕ) where
  -- The messages are as before, and the rows too.
  still :
      (ms : List Message) (sys sys' : System Db)
      → IsAccounted w ms sys' × (rows sys' ≡ rows sys)
      → IsAccounted w (ms ++ []) sys' × (rows sys' ≡ rows sys ++ [])
  still ms sys sys' (a, kept) = (rw (append-nil ms) a, kept ∙ sym (append-nil (rows sys)))

  happen_alive-step :
      (ms : List Message) (e : Happening) (sys sys' : System Db)
      → happen_alive w batch_size e sys ≡ some sys'
      → IsAccounted w ms sys
      → IsAccounted w (ms ++ delivered_by e) sys' × (rows sys' ≡ rows sys ++ sent_by e sys)
  unfolding happen_alive
  happen_alive-step ms (delivers subject content) sys sys' e a =
      let m : Message = (subject, content) in
      let same : record sys { handlers = sys.handlers ++ arrived subject content ∷ [] } ≡ sys' =
        cc in
      rw (← same) (
        record {
          row_from = a.row_from;
          hand_from = a.hand_from ++ m ∷ [];
          made = a.made;
          hands =
              Each-append (IsFrom w) a.hand_from (m ∷ []) sys.handlers
                (arrived subject content ∷ []) a.hands (refl, tt);
          once = λ x. omega (
            arith,
            counted-append x a.hand_from (m ∷ []),
            counted-append x ms (m ∷ []),
            a.once x,
          );
          bound = a.bound;
        },
        sym (append-nil (rows sys)),
      )
  happen_alive-step ms (runs i now) sys sys' e a =
      rw (append-nil ms) (run_handler-step w ms i now sys sys' e a)
  happen_alive-step ms takes sys sys' e a =
      still ms sys sys' (take_row-step w batch_size ms sys.service.history_ch sys sys' refl e a)
  happen_alive-step ms ticks sys sys' e a =
      let same : write w batch_size ticked sys ≡ sys' = cc in
      still ms sys sys' (rw (← same) (quiet_round-step w batch_size ms ticked sys refl a))
  happen_alive-step ms expires sys sys' e a =
      let same : write w batch_size expired sys ≡ sys' = cc in
      still ms sys sys' (rw (← same) (quiet_round-step w batch_size ms expired sys refl a))

  sent_in-step :
      (e : Happening) (es : List Happening) (sys next : System Db)
      → happen w batch_size e sys ≡ some next
      → sent_in w batch_size (e ∷ es) sys ≡ sent_by e sys ++ sent_in w batch_size es next
  sent_in-step e es sys next first = rw first refl

  run_system-step :
      (ms : List Message) (es : List Happening) (sys sys' : System Db)
      → run_system w batch_size es sys ≡ some sys'
      → IsAccounted w ms sys
      → IsAccounted w (ms ++ delivered es) sys'
        × (rows sys' ≡ rows sys ++ sent_in w batch_size es sys)
  unfolding run_system
  run_system-step ms [] sys sys' h a =
      let same : sys ≡ sys' = cc in rw (append-nil ms, ← same) (a, sym (append-nil (rows sys)))
  run_system-step ms (e ∷ es) sys sys' h a =
      let (next, first, others) = run_system_goes w batch_size e es sys sys' h in
      let (b, grown) =
        happen_alive-step ms e sys next (happen_goes w batch_size e sys next first).1 a in
      let (c, grown_more) = run_system-step (ms ++ delivered_by e) es next sys' others b in
      (
        rw (← append_assoc ms (delivered_by e) (delivered es)) c,
        grown_more
            ∙ ap (λ r. r ++ sent_in w batch_size es next) grown
            ∙ append_assoc (rows sys) (sent_by e sys) (sent_in w batch_size es next)
            ∙ ap (λ r. rows sys ++ r) (sym (sent_in-step e es sys next first)),
      )

  new_system-IsAccounted : (db : Db) → IsAccounted w [] (new_system db)
  unfolding new_system new_service
  new_system-IsAccounted db = record {
    row_from = [];
    hand_from = [];
    made = tt;
    hands = tt;
    once = λ x. omega arith;
    bound = omega arith;
  }

pub run_system-made :
    {Db : Type 0} (w : World Db) (batch_size : ℕ) (es : List Happening) (db : Db) (sys : System Db)
    → run_system w batch_size es (new_system db) ≡ some sys
    → (row_from : List Message) × (hand_from : List Message) × Each (IsRowOf w) row_from (rows sys)
      × Each (IsFrom w) hand_from sys.handlers
      × ((x : Message) → counted x row_from + counted x hand_from ≤ counted x (delivered es))
      × (length sys.service.history_ch ≤ channel_capacity)
run_system-made w batch_size es db sys h =
    let (a, _) =
      run_system-step w batch_size [] es (new_system db) sys h
        (new_system-IsAccounted w batch_size db) in
    (a.row_from, a.hand_from, a.made, a.hands, a.once, a.bound)

-- From any state that an interleaving brought about, whatever happens next, the rows handed to the
-- database, those in the writer's buffer and those in the channel, in this order, are the ones from
-- before and behind them the rows that handlers have sent since, each once, in the order of their sends:
-- no row is lost, doubled or moved before another.
pub run_system-rows :
    {Db : Type 0} (w : World Db) (batch_size : ℕ) (es es' : List Happening) (db : Db)
    (sys sys' : System Db)
    → run_system w batch_size es (new_system db) ≡ some sys
    → run_system w batch_size es' sys ≡ some sys'
    → rows sys' ≡ rows sys ++ sent_in w batch_size es' sys
run_system-rows w batch_size es es' db sys sys' h h' =
    let (a, _) =
      run_system-step w batch_size [] es (new_system db) sys h
        (new_system-IsAccounted w batch_size db) in
    (run_system-step w batch_size (delivered es) es' sys sys' h' a).1
