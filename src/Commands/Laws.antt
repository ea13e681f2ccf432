-- ===== src/Commands/Laws.antt =====
-- How `RunCommand` reports, and a text without a backslash.
use go_template_aerospike.Prelude.{
  Bytes, eq_bytes, false, Option, none, some, List, [], ◌∷◌, ◌≡◌, refl, ap, ◌∙◌, arith, ◌↔◌, length,
  take, Lacks, All,
}
use go_template_aerospike.Commands.{
  CommandOption, Process, command_error, run_command, replace_from, replace_all, replace_each,
  escapes, replace_escape_html_string,
}

command_error_iff :
    {Error : Type 0} (std_err : Bytes) (e : Option Error)
    → (command_error std_err e ≡ none) ↔ (e ≡ none)
command_error_iff std_err none = ground arith
command_error_iff [] (some e) = ground arith
command_error_iff (c ∷ s) (some e) = ground arith

-- `RunCommand` reports an error exactly when the command failed, whatever it wrote to stderr, and
-- returns all that it wrote to stdout.
pub run_command-failure :
    {Error : Type 0} (exec : CommandOption → Process Error) (o : CommandOption)
    → (((run_command exec o).failure ≡ none) ↔ ((exec o).failure ≡ none))
      × ((run_command exec o).output ≡ (exec o).std_out)
unfolding run_command
run_command-failure exec o = (command_error_iff (exec o).std_err (exec o).failure, refl)

-- A text that starts with a backslash.
abbrev IsEscape : Bytes × Bytes → Type 0
IsEscape (old, new) = (rest : Bytes) × (old ≡ b'\\' ∷ rest)

replace_from-Lacks : (rest new s : Bytes) → Lacks b'\\' s → replace_from (b'\\' ∷ rest) new 0 s ≡ s
unfolding replace_from
replace_from-Lacks rest new [] h = refl
replace_from-Lacks rest new (c ∷ s) (other, h) =
    let differ : eq_bytes (take (length (b'\\' ∷ rest)) (c ∷ s)) (b'\\' ∷ rest) ≡ false =
      ground (arith, other) in
    rw (replace_from, differ) (ap (λ l. c ∷ l) (replace_from-Lacks rest new s h))

replace_each-Lacks :
    (es : List (Bytes × Bytes)) (s : Bytes)
    → All IsEscape es
    → Lacks b'\\' s
    → replace_each es s ≡ s
unfolding replace_each
replace_each-Lacks [] s h lacks = refl
replace_each-Lacks ((old, new) ∷ es) s ((rest, e), h) lacks =
    ap (λ o. replace_each es (replace_all o new s)) e
    ∙ ap (replace_each es) (replace_from-Lacks rest new s lacks)
    ∙ replace_each-Lacks es s h lacks

-- In whatever order the map is visited, a text without a backslash is left as it is.
pub replace_escape_html_string-Lacks :
    (order : List (Bytes × Bytes) → List (Bytes × Bytes)) (s : Bytes)
    → All IsEscape (order escapes)
    → Lacks b'\\' s
    → replace_escape_html_string order s ≡ s
unfolding replace_escape_html_string
replace_escape_html_string-Lacks order s h lacks = replace_each-Lacks (order escapes) s h lacks
