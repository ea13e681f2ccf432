-- ===== src/Config/Rotation.antt =====
-- `rotateAtMidnight` (internal/config/config.go): a round of its loop reads the clock, sleeps until the
-- next midnight and rotates the log file, whose error is dropped. The calendar of the place is a
-- parameter. `InitLog` starts the loop where `rotate_daily` is set.
use go_template_aerospike.Prelude.{
  ℕ, zero, suc, ◌+◌, ◌≤◌, ◌<◌, List, [], ◌∷◌, if◌then◌else◌, ltb, ◌≡◌, refl, ap, ◌∙◌, ◌↔◌, arith,
  length, map,
}

-- The number of a moment's day, and `time.Date` of the first moment of a day.
pub record Calendar : Type 0 where
  pub day : ℕ → ℕ
  pub midnight : ℕ → ℕ

-- How much later than asked a sleep ends, and how long the rotation takes.
pub record Round : Type 0 where
  pub late : ℕ
  pub taken : ℕ

-- `time.Sleep(time.Until(next))`: what has passed is not waited for.
abbrev pub wake : ℕ → ℕ → ℕ
wake now next = if ltb now next then next else now

abbrev pub rotated_at : Calendar → Round → ℕ → ℕ
rotated_at cal r now = wake now (cal.midnight (suc (cal.day now))) + r.late

-- The moments of the rotations in the given rounds, from the moment at which the clock is read.
unfoldable pub rotate_at_midnight : Calendar → List Round → ℕ → List ℕ
rotate_at_midnight cal [] now = []
rotate_at_midnight cal (r ∷ rounds) now =
    let at = rotated_at cal r now in at ∷ rotate_at_midnight cal rounds (at + r.taken)

-- A moment's day is `n` or a later one exactly from the first moment of `n` on.
abbrev pub IsCalendar : Calendar → Type 0
IsCalendar cal = (n t : ℕ) → (cal.midnight n ≤ t) ↔ (n ≤ cal.day t)

-- The days are each later than the one before, from a day on.
abbrev pub AreLater : ℕ → List ℕ → Type 0
AreLater d [] = Unit
AreLater d (e ∷ days) = (d < e) × AreLater e days

abbrev pub days_after : ℕ → ℕ → List ℕ
days_after zero d = []
days_after (suc n) d = suc d ∷ days_after n (suc d)

-- Each round ends on the day of its rotation, which is the day after the round's start.
abbrev pub AreQuick : Calendar → List Round → ℕ → Type 0
AreQuick cal [] now = Unit
AreQuick cal (r ∷ rounds) now =
    let at = rotated_at cal r now in
    (cal.day (at + r.taken) ≤ suc (cal.day now)) × AreQuick cal rounds (at + r.taken)

module _ (cal : Calendar) (laws : IsCalendar cal) where
  AreLater-weaken : (c d : ℕ) (days : List ℕ) → c ≤ d → AreLater d days → AreLater c days
  AreLater-weaken c d [] h later = tt
  AreLater-weaken c d (e ∷ days) h (less, later) = (omega (arith, h, less), later)

  day_mono : (s t : ℕ) → s ≤ t → cal.day s ≤ cal.day t
  day_mono s t h =
      let begun = (laws (cal.day s) s).1 (omega arith) in
      (laws (cal.day s) t).0 (omega (arith, begun, h))

  rotated_at-day : (r : Round) (now : ℕ) → cal.day now < cal.day (rotated_at cal r now)
  rotated_at-day r now = (laws (suc (cal.day now)) (rotated_at cal r now)).0 (ground arith)

  -- The rotations are on days of their own, each later than the one before, and the first is later
  -- than the day of the start, however late the sleeps end and however long the rotations take.
  pub rotate_at_midnight-AreLater :
      (rounds : List Round) (now : ℕ)
      → AreLater (cal.day now) (map cal.day (rotate_at_midnight cal rounds now))
  unfolding rotate_at_midnight
  rotate_at_midnight-AreLater [] now = tt
  rotate_at_midnight-AreLater (r ∷ rounds) now =
      let at = rotated_at cal r now in
      (
        rotated_at-day r now,
        AreLater-weaken (cal.day at) (cal.day (at + r.taken))
            (map cal.day (rotate_at_midnight cal rounds (at + r.taken)))
            (day_mono at (at + r.taken) (omega arith))
            (rotate_at_midnight-AreLater rounds (at + r.taken)),
      )

  -- If every round ends on the day after its start, no day is left out: the rotations are on the days
  -- that follow the start's, one on each.
  pub rotate_at_midnight-daily :
      (rounds : List Round) (now : ℕ)
      → AreQuick cal rounds now
      → map cal.day (rotate_at_midnight cal rounds now) ≡ days_after (length rounds) (cal.day now)
  unfolding rotate_at_midnight
  rotate_at_midnight-daily [] now quick = refl
  rotate_at_midnight-daily (r ∷ rounds) now (ends, quick) =
      let at = rotated_at cal r now in
      let first = rotated_at-day r now in
      let mono = day_mono at (at + r.taken) (omega arith) in
      let e : cal.day at ≡ suc (cal.day now) = omega (arith, first, mono, ends) in
      let e' : cal.day (at + r.taken) ≡ suc (cal.day now) = omega (arith, first, mono, ends) in
      ap (λ d. d ∷ map cal.day (rotate_at_midnight cal rounds (at + r.taken))) e
      ∙ ap (λ l. suc (cal.day now) ∷ l)
          (rotate_at_midnight-daily rounds (at + r.taken) quick
            ∙ ap (λ d. days_after (length rounds) d) e')

-- Where `time.Date` gives a moment of the day before, as it may where the clocks skip midnight, the loop
-- does not wait from that moment until the day has passed: it rotates again and again.
pub rotated_at-spin :
    (cal : Calendar) (r : Round) (now : ℕ)
    → cal.midnight (suc (cal.day now)) ≤ now
    → rotated_at cal r now ≡ now + r.late
rotated_at-spin cal r now h = ground arith
