-- ===== src/System/Steps.antt =====
-- One step of a handler and the rows of the history (internal/service/track.go, track_history.go).
use go_template_aerospike.Prelude.{
  ◌+◌, ◌≤◌, ℤ, Option, none, some, List, [], ◌∷◌, ◌++◌, ◌≡◌, refl, sym, arith, Outcome, returned,
  panicked, blocked, length, length-append, append-nil, ap, ◌∙◌,
}
use go_template_aerospike.Service.{World, Service, channel_capacity}
use go_template_aerospike.System.Rules.{
  Rule, ignores, convert_panics, updates, removes, counts, publishes, stores, records,
  record_panics, sends, waits, ends, publishes_removal, unmaps, forgets, lists, drops, announces,
  advance-Rule,
}
use go_template_aerospike.System.{
  Handler, arrived, publishing, storing, recording, sending, removing, unmapping, forgetting,
  listing, dropping, announcing, advance, still_there,
}
use go_template_aerospike.System.Trace.{Message, counted, Each, sent, IsRowOf, IsFrom}

-- The handler that goes on has the same message.
abbrev pub like : Message → Option Handler → List Message
like m none = []
like m (some h) = m ∷ []

module _ {Db : Type 0} (w : World Db) where
  -- What a step of a handler does to the channel and to what the handler holds: its message is that of
  -- the row that it sends or of the handler that goes on, and not of both.
  pub record IsAdvance (m : Message) (h : Handler) (s s' : Service Db) (next : Option Handler)
      : Type 0 where
    pub sent_from : List Message
    pub queued : s'.history_ch ≡ s.history_ch ++ sent h
    pub room : length s.history_ch ≤ channel_capacity → length s'.history_ch ≤ channel_capacity
    pub made : Each (IsRowOf w) sent_from (sent h)
    pub source : Each (IsFrom w) (like m next) (still_there next)
    pub single : (x : Message) → counted x sent_from + counted x (like m next) ≤ counted x (m ∷ [])

  counted-like :
      (m x : Message) (next : Option Handler) → counted x (like m next) ≤ counted x (m ∷ [])
  counted-like m x none = omega arith
  counted-like m x (some h) = omega arith

  -- A step that leaves the channel alone.
  quiet :
      (m : Message) (h : Handler) (s s' : Service Db) (next : Option Handler)
      → sent h ≡ []
      → s'.history_ch ≡ s.history_ch
      → Each (IsFrom w) (like m next) (still_there next)
      → IsAdvance m h s s' next
  quiet m h s s' next n q f = record {
    sent_from = [];
    queued = rw n (rw q (sym (append-nil _)));
    room = λ r. rw q r;
    made = rw n tt;
    source = f;
    single = λ x. omega (arith, counted-like m x next);
  }

  -- However the step ends; a step that panics sends nothing.
  abbrev pub IsFine :
      Message → Handler → Service Db → Outcome (Service Db) (Option Handler) → Type 0
  IsFine m h s (returned next s') = IsAdvance m h s s' next
  IsFine m h s (panicked s') = (s'.history_ch ≡ s.history_ch) × (sent h ≡ [])
  IsFine m h s (blocked s') = Unit

  Rule-IsFine :
      (m : Message) (now : ℤ) (s : Service Db) {h : Handler}
      {o : Outcome (Service Db) (Option Handler)}
      → Rule w now s h o
      → IsFrom w m h
      → IsFine m h s o
  Rule-IsFine m now s (ignores subject content) from =
      quiet m (arrived subject content) s s none refl refl tt
  Rule-IsFine m now s (convert_panics subject content) from = (refl, refl)
  Rule-IsFine m now s (updates subject content payload base t e same is_read one p) from =
      quiet m (arrived subject content) s s _ refl refl (
        (
          base,
          e,
          ap (λ x. x.0) from ∙ same,
          ap (λ x. w.unmarshal_base_message x.1) from ∙ is_read,
          one,
          p,
        ),
        tt,
      )
  Rule-IsFine m now s (removes subject content base same is_read four) from =
      quiet m (arrived subject content) s s _ refl refl (tt, tt)
  Rule-IsFine m now s (counts subject content payload ids base is_read) from =
      quiet m (arrived subject content) s s _ refl refl (tt, tt)
  Rule-IsFine m now s (publishes t payload p) from =
      quiet m (publishing t payload) s _ (some (storing t)) refl refl (from, tt)
  Rule-IsFine m now s (stores t) from =
      quiet m (storing t) s _ (some (recording t)) refl refl (from, tt)
  Rule-IsFine m now s (records t h p) from =
      quiet m (recording t) s s (some (sending h)) refl refl ((t, from, (now, p)), tt)
  Rule-IsFine m now s (record_panics t) from = (refl, refl)
  Rule-IsFine m now s (sends h room) from = record {
    queued = refl;
    room = λ r. omega (arith, room, length-append s.history_ch (h ∷ []));
    sent_from = m ∷ [];
    made = (from, tt);
    source = tt;
    single = λ x. omega arith;
  }
  Rule-IsFine m now s (waits h full) from = tt
  Rule-IsFine m now s (ends ks) from = quiet m (removing ks) s s none refl refl tt
  Rule-IsFine m now s (publishes_removal k ks p) from =
      quiet m (removing (k ∷ ks)) s _ (some (unmapping k ks)) refl refl (tt, tt)
  Rule-IsFine m now s (unmaps k ks) from =
      quiet m (unmapping k ks) s _ (some (forgetting k ks)) refl refl (tt, tt)
  Rule-IsFine m now s (forgets k ks db) from =
      quiet m (forgetting k ks) s _ (some (removing ks)) refl refl (tt, tt)
  Rule-IsFine m now s (lists ids ks payload) from =
      quiet m (listing ids payload) s s (some (dropping ks payload)) refl refl (tt, tt)
  Rule-IsFine m now s (drops ks payload) from =
      quiet m (dropping ks payload) s _ (some (announcing payload)) refl refl (tt, tt)
  Rule-IsFine m now s (announces payload p) from =
      quiet m (announcing payload) s _ none refl refl tt

  pub advance-IsFine :
      (m : Message) (now : ℤ) (h : Handler) (s : Service Db)
      → IsFrom w m h
      → IsFine m h s (advance w now h s)
  advance-IsFine m now h s from = Rule-IsFine m now s (advance-Rule w now s h) from
