-- ===== src/Arrays.antt =====
-- The helpers on slices (internal/service/util/array.go, compare.go).
pub mod Laws
use go_template_aerospike.Prelude.{
  Bytes, Option, none, some, ℕ, suc, ◌+◌, ◌%◌, ◌^◌, ℤ, pos, negsuc, Bool, true, false, not, ◌&&◌,
  ◌||◌, List, [], ◌∷◌, ◌++◌, if◌then◌else◌,
}

module _ {A : Type 0} (same : A → A → Bool) where
  -- `reflect.DeepEqual` of the two values, or of what they point to, is `same`: no argument is a nil
  -- pointer, on which the code panics.
  unfoldable pub is_include : List A → A → Bool
  is_include [] elm = false
  is_include (x ∷ arr) elm = let rest = is_include arr elm in if same x elm then true else rest

  unfoldable pub replace : List A → A → A → List A
  replace [] old new = []
  replace (x ∷ arr) old new = (if same old x then new else x) ∷ replace arr old new

  -- The loop's count is a uint32.
  unfoldable pub count_from : ℕ → List A → A → ℕ
  count_from n [] elm = n
  count_from n (x ∷ arr) elm = count_from (if same elm x then (n + 1) % 2 ^ 32 else n) arr elm

  unfoldable pub count : List A → A → ℕ
  unfolding count_from
  count arr elm = count_from 0 arr elm

  -- `Unique` and `AppendUnique` run one loop: `res` is the slice built so far.
  unfoldable pub append_new : List A → List A → List A
  append_new res [] = res
  append_new res (x ∷ arr) = append_new (if not (is_include res x) then res ++ x ∷ [] else res) arr

  unfoldable pub unique : List A → List A
  unique arr = append_new [] arr

  unfoldable pub append_unique : List A → List A → List A
  append_unique arr elms = append_new arr elms

  -- The inner loop of `Remove` and its `break`.
  unfoldable pub should_remove : A → List A → Bool
  should_remove x [] = false
  should_remove x (e ∷ elms) = let rest = should_remove x elms in if same x e then true else rest

  unfoldable pub remove : List A → List A → List A
  remove [] elms = []
  remove (x ∷ arr) elms =
      let rest = remove arr elms in if not (should_remove x elms) then x ∷ rest else rest

unfoldable pub is_equal : {A : Type 0} → (A → A → Bool) → A → A → Bool
is_equal same elm1 elm2 = if same elm1 elm2 then true else false

-- The loops that hand the index to a function: `idx` is the index of the first item.
unfoldable pub map_from :
    {A B : Type 0} → (B → B → Bool) → (ℕ → A → B) → Bool → ℕ → List B → List A → List B
map_from same f only_one idx res [] = res
map_from same f only_one idx res (x ∷ arr) =
    let elm = f idx x in
    map_from same f only_one (suc idx)
      (if not only_one || (only_one && not (is_include same res elm)) then res ++ elm ∷ [] else res)
      arr

unfoldable pub array_map : {A B : Type 0} → (B → B → Bool) → List A → (ℕ → A → B) → Bool → List B
array_map same arr f only_one = map_from same f only_one 0 [] arr

unfoldable pub filter_from : {A : Type 0} → (ℕ → A → Bool) → ℕ → List A → List A
filter_from f idx [] = []
filter_from f idx (x ∷ arr) =
    let rest = filter_from f (suc idx) arr in if f idx x then x ∷ rest else rest

unfoldable pub filter : {A : Type 0} → List A → (ℕ → A → Bool) → List A
unfolding filter_from
filter arr f = filter_from f 0 arr

unfoldable pub any_from : {A : Type 0} → (ℕ → A → Bool) → ℕ → List A → Bool
any_from f idx [] = false
any_from f idx (x ∷ arr) = let rest = any_from f (suc idx) arr in if f idx x then true else rest

unfoldable pub array_any : {A : Type 0} → List A → (ℕ → A → Bool) → Bool
unfolding any_from
array_any arr f = any_from f 0 arr

unfoldable pub copy_array : {A : Type 0} → List A → List A → List A
copy_array arr elms = ([] ++ arr) ++ elms

-- `Min`, `Max`, `Average` and `Compare` on float64 values: the order and the arithmetic are the
-- hardware's. `less a b` is `a < b`.
module _ {F : Type 0} (less : F → F → Bool) (zero_float : F) where
  unfoldable pub least : F → List F → F
  least m [] = m
  least m (x ∷ arr) = least (if less x m then x else m) arr

  unfoldable pub min_of : List F → F
  min_of [] = zero_float
  min_of (x ∷ arr) = least x (x ∷ arr)

  unfoldable pub greatest : F → List F → F
  greatest m [] = m
  greatest m (x ∷ arr) = greatest (if less m x then x else m) arr

  unfoldable pub max_of : List F → F
  max_of [] = zero_float
  max_of (x ∷ arr) = greatest x (x ∷ arr)

  unfoldable pub compare_floats : F → F → ℤ
  compare_floats num1 num2 =
      if less num2 num1 then pos 1 else if less num1 num2 then negsuc 0 else pos 0

-- `regexp.Compile`: the test of a pattern, `none` if the pattern is malformed.
abbrev pub Compile : Type 0
Compile = Bytes → Option (Bytes → Bool)

unfoldable pub matching : (Bytes → Bool) → List Bytes → List Bytes → List Bytes
matching r matchings [] = matchings
matching r matchings (x ∷ arr) = matching r (if r x then matchings ++ x ∷ [] else matchings) arr

unfoldable pub search : Compile → List Bytes → Bytes → List Bytes
unfolding matching
search compile arr pattern = elim (compile pattern) [ none ↦ [] | some r ↦ matching r [] arr ]

unfoldable pub check : Compile → Bytes → Bytes → Bool
check compile s pattern = elim (compile pattern) [
  | none ↦ false
  | some r ↦ if r s then true else false
]

-- The calls of `ForEach`, in their order.
unfoldable pub for_each_from : {A : Type 0} → ℕ → List A → List (ℕ × A)
for_each_from idx [] = []
for_each_from idx (x ∷ arr) = (idx, x) ∷ for_each_from (suc idx) arr

unfoldable pub for_each : {A : Type 0} → List A → List (ℕ × A)
unfolding for_each_from
for_each arr = for_each_from 0 arr
