-- ===== src/Commands.antt =====
-- External commands and escaped texts (`RunCommand` and `ReplaceEscapeHTMLString` of
-- internal/service/util/util.go, `CommandOption` of type.go). `os/exec` is a parameter.
pub mod Laws
use go_template_aerospike.Prelude.{
  ℕ, zero, suc, ◌-◌, Bytes, text, eq_bytes, Bool, true, false, Option, none, some, List, [], ◌∷◌,
  ◌++◌, length, take, if◌then◌else◌, ◌&&◌, ltb,
}

-- The callback is a flag: the calls that it gets are recorded.
pub record CommandOption : Type 0 where
  pub input : Bytes
  pub command : Bytes
  pub options : List Bytes
  pub logging : Bool
  pub interval : ℕ
  pub has_callback : Bool

-- What the command does: the texts that it writes, how it fails, what the ticker's goroutine sees of its
-- output at each tick, and the text of the command.
pub record Process (Error : Type 0) : Type 0 where
  pub std_out : Bytes
  pub std_err : Bytes
  pub failure : Option Error
  pub ticks : List Bytes
  pub shown : Bytes

pub data CommandError (Error : Type 0) : Type 0 where
  run_failed : Error → CommandError Error
  error_text : Bytes → CommandError Error

pub data LogLine : Type 0 where
  exec_input exec_command exec_error exec_warning exec_output : Bytes → LogLine

pub record Ran (Error : Type 0) : Type 0 where
  pub shown : Bytes
  pub output : Bytes
  pub failure : Option (CommandError Error)
  pub callbacks : List Bytes
  pub logs : List LogLine

-- The text of stderr, if there is any, takes the place of the error.
abbrev pub command_error : {Error : Type 0} → Bytes → Option Error → Option (CommandError Error)
command_error std_err none = none
command_error [] (some e) = some (run_failed e)
command_error (c ∷ s) (some e) = some (error_text (c ∷ s))

abbrev pub stderr_logs : {Error : Type 0} → Bytes → Option Error → List LogLine
stderr_logs [] e = []
stderr_logs (c ∷ s) none = exec_warning (c ∷ s) ∷ []
stderr_logs (c ∷ s) (some e) = exec_error (c ∷ s) ∷ []

abbrev pub input_logs : Bytes → List LogLine
input_logs [] = []
input_logs (c ∷ s) = exec_input (c ∷ s) ∷ []

unfoldable pub command_logs : {Error : Type 0} → CommandOption → Process Error → List LogLine
command_logs o p =
    if o.logging
    then input_logs o.input
      ++ (exec_command p.shown ∷ (stderr_logs p.std_err p.failure ++ exec_output p.std_out ∷ []))
    else []

-- The last call gets the whole output.
unfoldable pub command_callbacks : {Error : Type 0} → CommandOption → Process Error → List Bytes
command_callbacks o p = if ltb 0 o.interval && o.has_callback then p.ticks ++ p.std_out ∷ [] else []

unfoldable pub run_command :
    {Error : Type 0} → (CommandOption → Process Error) → CommandOption → Ran Error
unfolding command_logs command_callbacks
run_command exec o = record {
  shown = (exec o).shown;
  output = (exec o).std_out;
  failure = command_error (exec o).std_err (exec o).failure;
  callbacks = command_callbacks o (exec o);
  logs = command_logs o (exec o);
}

-- `strings.ReplaceAll` with a text that is not empty; the number is how many bytes of an occurrence are
-- left to skip.
unfoldable pub replace_from : Bytes → Bytes → ℕ → Bytes → Bytes
replace_from old new k [] = []
replace_from old new (suc k) (c ∷ s) = replace_from old new k s
replace_from old new zero (c ∷ s) = elim (eq_bytes (take (length old) (c ∷ s)) old) [
  | true ↦ new ++ replace_from old new (length old - 1) s
  | false ↦ c ∷ replace_from old new zero s
]

abbrev pub replace_all : Bytes → Bytes → Bytes → Bytes
replace_all old new s = replace_from old new 0 s

abbrev pub escapes : List (Bytes × Bytes)
escapes =
    (text "\\u003c", text "<")
    ∷ (text "\\u003e", text ">")
    ∷ (text "\\u0026", text "&")
    ∷ (text "\\u0028", text "U+2028")
    ∷ (text "\\u0029", text "U+2029")
    ∷ []

unfoldable pub replace_each : List (Bytes × Bytes) → Bytes → Bytes
unfolding replace_from
replace_each [] s = s
replace_each ((old, new) ∷ es) s = replace_each es (replace_all old new s)

-- `order` is the order in which `range` visits the map.
unfoldable pub replace_escape_html_string :
    (List (Bytes × Bytes) → List (Bytes × Bytes)) → Bytes → Bytes
unfolding replace_each
replace_escape_html_string order s = replace_each (order escapes) s
