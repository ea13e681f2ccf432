-- ===== src/System/Trace.antt =====
-- What is said of the rows of the history and of where they come from: the messages of a run, the
-- rows on their way (internal/service/event_process.go, track.go, track_history.go).
use go_template_aerospike.Prelude.{
  ℕ, zero, suc, ◌+◌, ℤ, pos, Bytes, eq_bytes, Bool, ◌&&◌, if◌then◌else◌, Option, none, some, List,
  [], ◌∷◌, ◌++◌, ◌≡◌, refl, arith, value, take_out, Option-cases, inl, inr,
}
use go_template_aerospike.Track.{Track, TrackHistory}
use go_template_aerospike.Convert.{ConvertError, convert}
use go_template_aerospike.History.{history_of}
use go_template_aerospike.Service.{BaseMessage, World}
use go_template_aerospike.Tracks.{track_subject}
use go_template_aerospike.Batch.Laws.{join}
use go_template_aerospike.System.{
  Handler, arrived, publishing, storing, recording, sending, removing, unmapping, forgetting,
  listing, dropping, announcing, System, Happening, delivers, runs, takes, ticks, expires, happen,
}

-- A message by its subject and content.
abbrev pub Message : Type 0
Message = Bytes × Bytes

abbrev pub delivered_by : Happening → List Message
delivered_by (delivers subject content) = (subject, content) ∷ []
delivered_by (runs i now) = []
delivered_by takes = []
delivered_by ticks = []
delivered_by expires = []

abbrev pub delivered : List Happening → List Message
delivered [] = []
delivered (e ∷ es) = delivered_by e ++ delivered es

-- All rows that a handler has sent: in the batches handed to the database, in the writer's buffer,
-- or in the channel.
abbrev pub rows : {Db : Type 0} → System Db → List TrackHistory
rows sys = (join sys.writer.flushed ++ sys.writer.batch) ++ sys.service.history_ch

-- The row that the next step of a handler sends.
abbrev pub sent : Handler → List TrackHistory
sent (arrived subject content) = []
sent (publishing t payload) = []
sent (storing t) = []
sent (recording t) = []
sent (sending h) = h ∷ []
sent (removing ks) = []
sent (unmapping k ks) = []
sent (forgetting k ks) = []
sent (listing ids payload) = []
sent (dropping ks payload) = []
sent (announcing payload) = []

abbrev eq_message : Message → Message → Bool
eq_message a b = eq_bytes a.0 b.0 && eq_bytes a.1 b.1

-- How often a message occurs.
abbrev pub counted : Message → List Message → ℕ
counted x [] = 0
counted x (m ∷ ms) = (if eq_message m x then 1 else 0) + counted x ms

pub counted-append :
    (x : Message) (ms ns : List Message) → counted x (ms ++ ns) ≡ counted x ms + counted x ns
counted-append x [] ns = omega arith
counted-append x (m ∷ ms) ns = omega (arith, counted-append x ms ns)

-- Each item comes from the message at its place.
abbrev pub Each : {A : Type 0} → (Message → A → Type 0) → List Message → List A → Type 0
Each P [] [] = Unit
Each P [] (x ∷ xs) = ⊥
Each P (m ∷ ms) [] = ⊥
Each P (m ∷ ms) (x ∷ xs) = P m x × Each P ms xs

module _ {A : Type 0} (P : Message → A → Type 0) where
  pub Each-append :
      (ms ns : List Message) (xs ys : List A)
      → Each P ms xs
      → Each P ns ys
      → Each P (ms ++ ns) (xs ++ ys)
  Each-append [] ns [] ys none_here h = h
  Each-append [] ns (x ∷ xs) ys impossible h = absurd impossible
  Each-append (m ∷ ms) ns [] ys impossible h = absurd impossible
  Each-append (m ∷ ms) ns (x ∷ xs) ys (here, there) h = (here, Each-append ms ns xs ys there h)

  -- The message of the item that is taken out, and those of the others.
  pub Each-take_out :
      (i : ℕ) (ms : List Message) (xs rest : List A) (x : A)
      → take_out i xs ≡ some (x, rest)
      → Each P ms xs
      → (m : Message) × (ns : List Message) × P m x
        × Each P ns rest
        × ((y : Message) → counted y ms ≡ counted y (m ∷ ns))
  unfolding take_out
  Each-take_out i ms [] rest x e each = absurd (ground (arith, e))
  Each-take_out i [] (z ∷ xs) rest x e each = absurd each
  Each-take_out zero (m ∷ ms) (z ∷ xs) rest x e (here, there) =
      let same : z ≡ x = cc in
      let rests : xs ≡ rest = cc in (m, ms, rw (← same) here, rw (← rests) there, λ y. refl)
  Each-take_out (suc i) (m ∷ ms) (z ∷ xs) rest x e (here, there) =
      elim (Option-cases (take_out i xs)) [
        | inl p ↦ absurd (ground (arith, e))
        | inr ((y, r), p) ↦
            let (k, ns, py, pr, same_count) = Each-take_out i ms xs r y p there in
            let same : y ≡ x = ground (arith, e) in
            let rests : z ∷ r ≡ rest = ground (arith, e) in
            (k, m ∷ ns, rw (← same) py, rw (← rests) (here, pr), λ u. omega (arith, same_count u))
      ]

module _ {Db : Type 0} (w : World Db) where
  -- The track is what the conversion made of this update message.
  abbrev pub IsTrackOf : Message → Track → Type 0
  IsTrackOf m t =
      (base : BaseMessage) × (e : Option ConvertError) × (m.0 ≡ track_subject)
      × (w.unmarshal_base_message m.1 ≡ some base)
      × (base.message_type ≡ pos 1)
      × (convert w.fpu (some (w.unmarshal_track_message base.message_detail)) ≡ value (t, e))

  -- The row is that of such a track at some time.
  abbrev pub IsRowOf : Message → TrackHistory → Type 0
  IsRowOf m h = (t : Track) × IsTrackOf m t × ((now : ℤ) × (history_of now t ≡ value h))

  -- What a handler holds comes from its message.
  abbrev pub IsFrom : Message → Handler → Type 0
  IsFrom m (arrived subject content) = m ≡ (subject, content)
  IsFrom m (publishing t payload) = IsTrackOf m t
  IsFrom m (storing t) = IsTrackOf m t
  IsFrom m (recording t) = IsTrackOf m t
  IsFrom m (sending h) = IsRowOf m h
  IsFrom m (removing ks) = Unit
  IsFrom m (unmapping k ks) = Unit
  IsFrom m (forgetting k ks) = Unit
  IsFrom m (listing ids payload) = Unit
  IsFrom m (dropping ks payload) = Unit
  IsFrom m (announcing payload) = Unit

-- The row that the handler which is chosen sends.
abbrev pub sent_out : Option (Handler × List Handler) → List TrackHistory
sent_out none = []
sent_out (some (h, rest)) = sent h

abbrev pub sent_by : {Db : Type 0} → Happening → System Db → List TrackHistory
sent_by (delivers subject content) sys = []
sent_by (runs i now) sys = sent_out (take_out i sys.handlers)
sent_by takes sys = []
sent_by ticks sys = []
sent_by expires sys = []

-- The rows that handlers send in a course of events, in the order of their sends.
abbrev pub sent_in : {Db : Type 0} → World Db → ℕ → List Happening → System Db → List TrackHistory
sent_in w n [] sys = []
sent_in w n (e ∷ es) sys =
    sent_by e sys ++ elim (happen w n e sys) [ none ↦ [] | some next ↦ sent_in w n es next ]
