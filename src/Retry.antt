-- ===== src/Retry.antt =====
-- `Retry` (internal/service/util/util.go): the function that it calls changes a state and may fail.
use go_template_aerospike.Prelude.{
  ℕ, zero, suc, ◌≤◌, ℤ, pos, negsuc, Option, none, some, ◌≡◌, ◌≢◌, refl, ◌⊎◌, inl, inr,
  Option-cases, arith,
}

module _ {S Error : Type 0} (fn : S → Option Error × S) where
  -- The attempts that are left, at least one; the log and the sleep between them change nothing.
  unfoldable pub attempts : ℕ → S → Option Error × S
  attempts zero s = fn s
  attempts (suc remaining) s =
      let (err, s') = fn s in elim err [ none ↦ (none, s') | some e ↦ attempts remaining s' ]

  -- `for attempt := 1; attempt <= retries; attempt++`
  unfoldable pub retry : ℤ → S → Option Error × S
  retry (pos zero) s = (none, s)
  retry (pos (suc n)) s = attempts n s
  retry (negsuc n) s = (none, s)

  -- The state after a number of calls, and the error of the call after them.
  abbrev pub state_after : ℕ → S → S
  state_after zero s = s
  state_after (suc k) s = state_after k (fn s).1

  abbrev pub error_after : ℕ → S → Option Error
  error_after k s = (fn (state_after k s)).0

  -- The calls before number `k` failed.
  abbrev pub AllFail : ℕ → S → Type 0
  AllFail zero s = Unit
  AllFail (suc k) s = ((fn s).0 ≢ none) × AllFail k (fn s).1

  -- How a run of `Retry` ended: after `k` failures a call succeeded, or all `n + 1` calls failed and the
  -- error is the last one's.
  abbrev pub IsRun : ℕ → S → Option Error × S → Type 0
  IsRun n s r =
      ((k : ℕ) × ((k ≤ n)
          × AllFail k s
          × (error_after k s ≡ none)
          × (r ≡ (none, state_after (suc k) s))))
      ⊎ (AllFail (suc n) s × (r ≡ (error_after n s, state_after (suc n) s)))

  later-IsRun :
      (n : ℕ) (s : S) (r : Option Error × S)
      → (fn s).0 ≢ none
      → IsRun n (fn s).1 r
      → IsRun (suc n) s r
  later-IsRun n s r h (inl (k, (le, fails, ok, e))) = inl (suc k, (omega arith, (h, fails), ok, e))
  later-IsRun n s r h (inr (fails, e)) = inr ((h, fails), e)

  attempts_again :
      (n : ℕ) (s : S) (e : Error) → (fn s).0 ≡ some e → attempts (suc n) s ≡ attempts n (fn s).1
  unfolding attempts
  attempts_again n s e failed = rw (failed, attempts) refl

  attempts-IsRun : (n : ℕ) (s : S) → IsRun n s (attempts n s)
  unfolding attempts
  attempts-IsRun zero s = elim (Option-cases (fn s).0) [
    | inl ok ↦ inl (0, (omega arith, tt, ok, ground arith))
    | inr (e, failed) ↦ inr (((λ z. ground arith), tt), refl)
  ]
  attempts-IsRun (suc n) s = elim (Option-cases (fn s).0) [
    | inl ok ↦ inl (0, (omega arith, tt, ok, ground arith))
    | inr (e, failed) ↦
        rw (attempts_again n s e failed)
          (later-IsRun n s (attempts n (fn s).1) (λ z. ground arith) (attempts-IsRun n (fn s).1))
  ]

-- With a positive number of retries, `Retry` calls the function until it succeeds, and returns nil
-- after the first success; if that many calls all fail, it returns the error of the last, and the
-- function is not called again.
pub retry-IsRun :
    {S Error : Type 0} (fn : S → Option Error × S) (n : ℕ) (s : S)
    → IsRun fn n s (retry fn (pos (suc n)) s)
unfolding retry
retry-IsRun fn n s = attempts-IsRun fn n s
