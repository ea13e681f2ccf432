-- ===== src/Tracks/Keys.antt =====
-- The keys of the track map: what the loops of internal/service/track.go remove and keep.
use mathlib.Core.List.{Perm, Permᴰ, filter_map}
use mathlib.Core.List.Perm
use mathlib.Core.Logic.{∥∥₁_elim}
use mathlib.Core.Bool.{Bool-set}
use go_template_aerospike.Prelude.{
  ℤ, eqb_ℤ, eqb_ℤ_iff, eqb_ℤ_refl, Bool, false, not, ◌&&◌, any, Option, none, some, List, [], ◌∷◌,
  ◌≡◌, refl, ◌∙◌, arith, if◌then◌else◌, Map, lookup, delete, lookup-delete, IsMap, keys,
}
use go_template_aerospike.Track.{Track}
use go_template_aerospike.Tracks.{diff_array, delete_all, tracks_at, flatten}

abbrev pub contains : ℤ → List ℤ → Bool
contains k xs = any (eqb_ℤ k) xs

contains-Permᴰ : (k : ℤ) {xs ys : List ℤ} → Permᴰ xs ys → contains k xs ≡ contains k ys
contains-Permᴰ k Permᴰ.nil = refl
contains-Permᴰ k (Permᴰ.cons e p) = ground (arith, contains-Permᴰ k p)
contains-Permᴰ k (Permᴰ.swap e e') = ground arith
contains-Permᴰ k (Permᴰ.trans p q) = contains-Permᴰ k p ∙ contains-Permᴰ k q

pub contains-Perm : (k : ℤ) {xs ys : List ℤ} → Perm xs ys → contains k xs ≡ contains k ys
contains-Perm k p = ∥∥₁_elim p (Bool-set _ _) (contains-Permᴰ k)

-- The items of `a` that are not in `b`, and no others.
pub contains-diff_array :
    (k : ℤ) (a b : List ℤ) → contains k (diff_array a b) ≡ (contains k a && not (contains k b))
unfolding diff_array
contains-diff_array k [] b = refl
contains-diff_array k (x ∷ a) b = ground (arith, contains-diff_array k a b, eqb_ℤ_iff k x)

pub lookup-delete_all :
    (k : ℤ) (ks : List ℤ) (m : Map (Option Track))
    → lookup k (delete_all ks m) ≡ (if contains k ks then none else lookup k m)
unfolding delete_all
lookup-delete_all k [] m = refl
lookup-delete_all k (j ∷ ks) m =
    ground (
      arith,
      lookup-delete_all k ks (delete j m),
      lookup-delete j k m,
      eqb_ℤ_iff k j,
      eqb_ℤ_iff j k,
    )

pub contains-keys :
    (k : ℤ) (m : Map (Option Track)) → contains k (keys m) ≡ false → lookup k m ≡ none
unfolding keys lookup
contains-keys k [] h = refl
contains-keys k ((j, p) ∷ m) h = ground (arith, contains-keys k m, eqb_ℤ_iff k j, eqb_ℤ_iff j k)

-- Every key visited once, in any order, shows the pointers of the map that are not nil.
unfoldable pub values : Map (Option Track) → List Track
values [] = []
values ((k, none) ∷ m) = values m
values ((k, some t) ∷ m) = t ∷ values m

tracks_at-eq :
    (ks : List ℤ) (m : Map (Option Track))
    → tracks_at ks m ≡ filter_map (λ k. flatten (lookup k m)) ks
unfolding tracks_at filter_map
tracks_at-eq [] m = refl
tracks_at-eq (k ∷ ks) m = ground (arith, tracks_at-eq ks m)

pub tracks_at-Perm :
    {ks ks' : List ℤ} (m : Map (Option Track))
    → Perm ks ks'
    → Perm (tracks_at ks m) (tracks_at ks' m)
tracks_at-Perm {ks} {ks'} m p = rw (tracks_at-eq ks m, tracks_at-eq ks' m) (Perm.filter_map _ p)

tracks_at-cons :
    (ks : List ℤ) (j : ℤ) (p : Option Track) (m : Map (Option Track))
    → contains j ks ≡ false
    → tracks_at ks ((j, p) ∷ m) ≡ tracks_at ks m
unfolding tracks_at lookup
tracks_at-cons [] j p m h = refl
tracks_at-cons (k ∷ ks) j p m h = ground (arith, tracks_at-cons ks j p m)

keys-free : (k : ℤ) (m : Map (Option Track)) → lookup k m ≡ none → contains k (keys m) ≡ false
unfolding keys lookup
keys-free k [] h = refl
keys-free k ((j, p) ∷ m) h = ground (arith, keys-free k m, eqb_ℤ_iff k j, eqb_ℤ_iff j k)

pub tracks_at-keys : (m : Map (Option Track)) → IsMap m → tracks_at (keys m) m ≡ values m
unfolding tracks_at keys values lookup
tracks_at-keys [] h = refl
tracks_at-keys ((j, none) ∷ m) (free, h) =
    ground (
      arith,
      eqb_ℤ_refl j,
      tracks_at-cons (keys m) j none m (keys-free j m free),
      tracks_at-keys m h,
    )
tracks_at-keys ((j, some t) ∷ m) (free, h) = ground (
  arith,
  eqb_ℤ_refl j,
  tracks_at-cons (keys m) j (some t) m (keys-free j m free),
  tracks_at-keys m h,
)
