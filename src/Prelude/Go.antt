-- ===== src/Prelude/Go.antt =====
-- Go's ways to end a call: a value, a panic, or a goroutine that waits for ever in a channel send.
-- A pure function that may panic returns a `Checked`; a method of a mutable object is an `Exec`.
use mathlib.Core.Option.{Option, none, some}

pub data Checked {ℓ} (A : Type ℓ) : Type ℓ where
  value : A → Checked A
  panic : Checked A

-- `*p`: a nil pointer panics.
abbrev pub deref {ℓ} : {A : Type ℓ} → Option A → Checked A
deref none = panic
deref (some a) = value a

abbrev pub and_then {ℓ κ} : {A : Type ℓ} {B : Type κ} → Checked A → (A → Checked B) → Checked B
and_then (value a) f = f a
and_then panic f = panic

-- How a method ended, with the object as it was left: what was written before a panic, or before a
-- send that found its channel full, stays written.
pub data Outcome (S A : Type 0) : Type 0 where
  returned : A → S → Outcome S A
  panicked : S → Outcome S A
  blocked : S → Outcome S A

abbrev pub Exec : Type 0 → Type 0 → Type 0
Exec S A = S → Outcome S A

module _ {S A : Type 0} where
  abbrev pub pure : A → Exec S A
  pure a s = returned a s

  abbrev pub crash : Exec S A
  crash s = panicked s

  abbrev pub gets : (S → A) → Exec S A
  gets f s = returned (f s) s

  abbrev pub final : Outcome S A → S
  final (returned a s) = s
  final (panicked s) = s
  final (blocked s) = s

abbrev pub modify : {S : Type 0} → (S → S) → Exec S (Unit {0})
modify f s = returned tt (f s)

module _ {S A B : Type 0} where
  abbrev pub continue : Outcome S A → (A → Exec S B) → Outcome S B
  continue (returned a s) f = f a s
  continue (panicked s) f = panicked s
  continue (blocked s) f = blocked s

  infixl 10 ◌>>=◌ ◌>>◌
  abbrev pub ◌>>=◌ : Exec S A → (A → Exec S B) → Exec S B
  ◌>>=◌ m f s = continue (m s) f

  abbrev pub ◌>>◌ : Exec S A → Exec S B → Exec S B
  ◌>>◌ m n s = continue (m s) (λ _. n)

-- A pure call inside a method.
abbrev pub lift : {S A : Type 0} → Checked A → Exec S A
lift (value a) s = returned a s
lift panic s = panicked s
