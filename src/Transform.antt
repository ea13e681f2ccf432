-- ===== src/Transform.antt =====
-- `StringToFloats` (internal/service/util/transform_type.go), `Average` (internal/service/util/array.go),
-- and the encoders of internal/service/util/util.go and crypto.go, over the standard library's parts:
-- `strings.Split` and `TrimSpace`, `strconv.ParseFloat`, the float64 arithmetic, `json.Marshal`,
-- `md5.Sum`, `hex.EncodeToString` and `crc32.ChecksumIEEE`.
pub mod Laws
use go_template_aerospike.Prelude.{ℕ, ◌==◌, Bytes, text, List, [], ◌∷◌, ◌++◌, length, if◌then◌else◌}
use go_template_aerospike.Query.{Result, ok, error}

module _ {Float Error : Type 0} (trim_space : Bytes → Bytes)
    (parse_float : Bytes → Result Error Float) where
  -- The loop, with the slice built so far; it returns at the first error.
  unfoldable pub parse_each : List Float → List Bytes → Result Error (List Float)
  parse_each floats [] = ok floats
  parse_each floats (s ∷ strings) = elim (parse_float (trim_space s)) [
    | error e ↦ error e
    | ok f ↦ parse_each (floats ++ f ∷ []) strings
  ]

  -- `strings.Split(stringComma, s)`: the second argument is the separator.
  unfoldable pub string_to_floats :
      (Bytes → Bytes → List Bytes) → Bytes → Bytes → Result Error (List Float)
  unfolding parse_each
  string_to_floats split string_comma s = parse_each [] (split string_comma s)

-- The arithmetic of float64.
pub record Arithmetic (Float : Type 0) : Type 0 where
  pub zero_float : Float
  pub add : Float → Float → Float
  pub divide : Float → Float → Float
  pub of_length : ℕ → Float

module _ {Float : Type 0} (a : Arithmetic Float) where
  unfoldable pub sum_from : Float → List Float → Float
  sum_from sum [] = sum
  sum_from sum (x ∷ arr) = sum_from (a.add sum x) arr

  -- A length is 0 as a float exactly if it is 0.
  unfoldable pub average : List Float → Float
  unfolding sum_from
  average arr =
      if length arr == 0
      then a.zero_float
      else a.divide (sum_from a.zero_float arr) (a.of_length (length arr))

-- `json.Marshal` of a value: what it gives next to an error is nil.
abbrev pub marshalled : {Error : Type 0} → Result Error Bytes → Bytes
marshalled (ok bytes) = bytes
marshalled (error e) = []

pub record PatchOption (Value : Type 0) : Type 0 where
  pub op : Bytes
  pub path : Bytes
  pub val : Value

-- The error is dropped.
unfoldable pub create_patch_options :
    {Value Error : Type 0}
    → (List (PatchOption Value) → Result Error Bytes)
    → List (PatchOption Value)
    → Bytes
create_patch_options marshal patch_options = marshalled (marshal patch_options)

-- All three errors are dropped.
unfoldable pub create_publish_event_data :
    {T U Error : Type 0}
    → (T → Result Error Bytes)
    → (U → Result Error Bytes)
    → (List (Bytes × Bytes) → Result Error Bytes)
    → T
    → U
    → Bytes
create_publish_event_data marshal_request marshal_response marshal_map request_data response_data =
    let request = marshalled (marshal_request request_data) in
    let response = marshalled (marshal_response response_data) in
    marshalled (marshal_map ((text "request", request) ∷ (text "response", response) ∷ []))

unfoldable pub calculate_md5 : (Bytes → Bytes) → (Bytes → Bytes) → Bytes → Bytes
calculate_md5 sum encode_to_string bytes = encode_to_string (sum bytes)

unfoldable pub calculate_crc32 : (Bytes → ℕ) → Bytes → ℕ
calculate_crc32 checksum_ieee bytes = checksum_ieee bytes
