-- ===== src/Prelude/Dicts.antt =====
-- A Go map with string keys as an association list, and the order in which `range` visits it.
use mathlib.Core.Path.{◌≡◌, refl, ◌∙◌}
use mathlib.Core.Option.{Option, none, some}
use mathlib.Core.List.{List, [], ◌∷◌}
use native.Mathlib.Omega.{arith}
use go_template_aerospike.Prelude.Tests.{if◌then◌else◌}
use go_template_aerospike.Prelude.Text.{Bytes, eq_bytes, eq_bytes_iff, eq_bytes_refl}

abbrev pub Dict : Type 0 → Type 0
Dict V = List (Bytes × V)

module _ {V : Type 0} where
  unfoldable pub get_key : Bytes → Dict V → Option V
  get_key k [] = none
  get_key k ((j, v) ∷ d) = let rest = get_key k d in if eq_bytes j k then some v else rest

  -- delete(d, k)
  unfoldable pub erase_key : Bytes → Dict V → Dict V
  erase_key k [] = []
  erase_key k ((j, v) ∷ d) =
      let rest = erase_key k d in if eq_bytes j k then rest else (j, v) ∷ rest

  -- d[k] = v
  unfoldable pub set_key : Bytes → V → Dict V → Dict V
  set_key k v d = (k, v) ∷ erase_key k d

  pub get_key-erase_key :
      (k j : Bytes) (d : Dict V)
      → get_key j (erase_key k d) ≡ (if eq_bytes k j then none else get_key j d)
  unfolding get_key erase_key
  get_key-erase_key k j [] = ground arith
  get_key-erase_key k j ((i, v) ∷ d) =
      ground (arith, get_key-erase_key k j d, eq_bytes_iff i k, eq_bytes_iff i j, eq_bytes_iff k j)

  pub get_key-set_key :
      (k j : Bytes) (v : V) (d : Dict V)
      → get_key j (set_key k v d) ≡ (if eq_bytes k j then some v else get_key j d)
  unfolding set_key get_key
  get_key-set_key k j v d = ground (arith, get_key-erase_key k j d)

  -- No key stands twice.
  abbrev pub IsDict : Dict V → Type 0
  IsDict [] = Unit
  IsDict ((j, v) ∷ d) = (get_key j d ≡ none) × IsDict d

  pub erase_key-IsDict : (k : Bytes) (d : Dict V) → IsDict d → IsDict (erase_key k d)
  unfolding erase_key
  erase_key-IsDict k [] h = tt
  erase_key-IsDict k ((j, v) ∷ d) (free, h) =
      ground (arith, erase_key-IsDict k d h, get_key-erase_key k j d, eq_bytes_iff j k)

  pub set_key-IsDict : (k : Bytes) (v : V) (d : Dict V) → IsDict d → IsDict (set_key k v d)
  unfolding set_key
  set_key-IsDict k v d h =
      ground (arith, erase_key-IsDict k d h, get_key-erase_key k k d, eq_bytes_refl k)

-- An order in which `range` may visit a map: each entry once.
abbrev pub IsVisit : {V : Type 0} → (Dict V → Dict V) → Type 0
IsVisit {V} order =
    (d : Dict V) → IsDict d → IsDict (order d) × ((k : Bytes) → get_key k (order d) ≡ get_key k d)

-- `for k, v := range d { out[k] = f(v) }`
unfoldable pub copy_entries : {V W : Type 0} → (V → W) → Dict V → Dict W → Dict W
copy_entries f [] out = out
copy_entries f ((k, v) ∷ d) out = copy_entries f d (set_key k (f v) out)

abbrev pub over {ℓ κ} : {A : Type ℓ} {B : Type κ} → (A → B) → Option A → Option B → Option B
over f none old = old
over f (some a) old = some (f a)

-- What the loop leaves: the entry of the map where it has one.
pub get_key-copy_entries :
    {V W : Type 0} (f : V → W) (d : Dict V) (out : Dict W) (k : Bytes)
    → IsDict d
    → get_key k (copy_entries f d out) ≡ over f (get_key k d) (get_key k out)
unfolding copy_entries get_key
get_key-copy_entries f [] out k h = refl
get_key-copy_entries f ((j, v) ∷ d) out k (free, h) =
    get_key-copy_entries f d (set_key j (f v) out) k h
    ∙ ground (arith, get_key-set_key j k (f v) out, eq_bytes_iff j k)

pub copy_entries-IsDict :
    {V W : Type 0} (f : V → W) (d : Dict V) (out : Dict W)
    → IsDict out
    → IsDict (copy_entries f d out)
unfolding copy_entries
copy_entries-IsDict f [] out h = h
copy_entries-IsDict f ((k, v) ∷ d) out h =
    copy_entries-IsDict f d (set_key k (f v) out) (set_key-IsDict k (f v) out h)
