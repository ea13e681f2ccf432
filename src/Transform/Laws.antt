-- ===== src/Transform/Laws.antt =====
-- `StringToFloats` against its description (internal/service/util/transform_type.go).
use go_template_aerospike.Prelude.{
  Bytes, List, [], ◌∷◌, ◌++◌, ◌≡◌, refl, sym, ap, ◌∙◌, append-nil, append_assoc, ◌⊎◌, inl, inr,
}
use go_template_aerospike.Query.{Result, ok, error}
use go_template_aerospike.Transform.{parse_each, string_to_floats}

-- A value in front of the rest.
abbrev with_value : {A Error : Type 0} → A → Result Error (List A) → Result Error (List A)
with_value f (ok bs) = ok (f ∷ bs)
with_value f (error e) = error e

module _ {A B Error : Type 0} where
  -- All results, or the first error.
  abbrev pub all_ok : (A → Result Error B) → List A → Result Error (List B)
  all_ok f [] = ok []
  all_ok f (x ∷ xs) = elim (f x) [ error e ↦ error e | ok b ↦ with_value b (all_ok f xs) ]

abbrev after : {A Error : Type 0} → List A → Result Error (List A) → Result Error (List A)
after l (ok r) = ok (l ++ r)
after l (error e) = error e

after-with :
    {A Error : Type 0} (f : A) (l : List A) (r : Result Error (List A))
    → after (l ++ f ∷ []) r ≡ after l (with_value f r)
after-with f l (ok r) = ap ok (append_assoc l (f ∷ []) r)
after-with f l (error e) = refl

after-nil : {A Error : Type 0} (r : Result Error (List A)) → after [] r ≡ r
after-nil (ok r) = refl
after-nil (error e) = refl

Result-cases :
    {A Error : Type 0} (r : Result Error A) → ((e : Error) × (r ≡ error e)) ⊎ ((a : A) × (r ≡ ok a))
Result-cases (error e) = inl (e, refl)
Result-cases (ok a) = inr (a, refl)

module _ {Float Error : Type 0} (trim_space : Bytes → Bytes)
    (parse_float : Bytes → Result Error Float) where
  parse_each-all_ok :
      (floats : List Float) (strings : List Bytes)
      → parse_each trim_space parse_float floats strings
        ≡ after floats (all_ok (λ s. parse_float (trim_space s)) strings)
  unfolding parse_each
  parse_each-all_ok floats [] = ap ok (sym (append-nil floats))
  parse_each-all_ok floats (s ∷ strings) = elim (Result-cases (parse_float (trim_space s))) [
    | inl (e, p) ↦ rw (p, parse_each) refl
    | inr (f, p) ↦
        rw (p, parse_each)
          (parse_each-all_ok (floats ++ f ∷ []) strings
            ∙ after-with f floats (all_ok (λ s. parse_float (trim_space s)) strings))
  ]

-- The loop gives the values of all parts, in their order, or the error of the first part that is no
-- number, whatever the parts after it.
pub string_to_floats-all_ok :
    {Float Error : Type 0} (trim_space : Bytes → Bytes) (parse_float : Bytes → Result Error Float)
    (split : Bytes → Bytes → List Bytes) (string_comma s : Bytes)
    → string_to_floats trim_space parse_float split string_comma s
      ≡ all_ok (λ part. parse_float (trim_space part)) (split string_comma s)
unfolding string_to_floats
string_to_floats-all_ok trim_space parse_float split string_comma s =
    parse_each-all_ok trim_space parse_float [] (split string_comma s) ∙ after-nil _
