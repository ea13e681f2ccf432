-- ===== src/Paths.antt =====
-- Go's slash-separated paths: what `path/filepath` does on Unix with the paths that
-- internal/service/util/file.go and internal/config hand it.
pub mod Below
pub mod Relative
use go_template_aerospike.Prelude.{
  ℕ, suc, Bytes, text, eq_bytes, Bool, true, false, ◌||◌, Option, none, some, List, [], ◌∷◌, ◌++◌,
  ◌==◌, if◌then◌else◌, split, join, length,
}

-- The components of a path that was read so far, the last one first; `rooted` is whether it starts with
-- a slash. `..` takes one away, except at the root, where it is dropped, and after another `..`.
unfoldable pub go_up : Bool → List Bytes → List Bytes
go_up rooted [] = if rooted then [] else text ".." ∷ []
go_up rooted (c ∷ cs) = if eq_bytes c (text "..") then text ".." ∷ c ∷ cs else cs

unfoldable pub push : Bool → List Bytes → Bytes → List Bytes
unfolding go_up
push rooted cs c =
    if eq_bytes c [] || eq_bytes c (text ".")
    then cs
    else if eq_bytes c (text "..")
    then go_up rooted cs
    else c ∷ cs

unfoldable pub push_all : Bool → List Bytes → List Bytes → List Bytes
push_all rooted cs [] = cs
push_all rooted cs (p ∷ ps) = push_all rooted (push rooted cs p) ps

abbrev pub reverse_parts : List Bytes → List Bytes → List Bytes
reverse_parts [] out = out
reverse_parts (c ∷ cs) out = reverse_parts cs (c ∷ out)

abbrev pub is_rooted : Bytes → Bool
is_rooted [] = false
is_rooted (c ∷ s) = c == b'/'

unfoldable pub render : Bool → List Bytes → Bytes
render true cs = b'/' ∷ join b'/' (reverse_parts cs [])
render false [] = text "."
render false (c ∷ cs) = join b'/' (reverse_parts (c ∷ cs) [])

-- `filepath.Clean`
unfoldable pub clean : Bytes → Bytes
unfolding push_all render split
clean path = render (is_rooted path) (push_all (is_rooted path) [] (split b'/' path))

-- `filepath.Join` of two elements: empty ones are left out.
unfoldable pub join_path : Bytes → Bytes → Bytes
join_path [] [] = []
join_path [] (c ∷ name) = clean (c ∷ name)
join_path (c ∷ dir) name = clean ((c ∷ dir) ++ b'/' ∷ name)

-- The text up to its last slash, this included, and what follows it.
abbrev pub dir_part : List Bytes → List Bytes
dir_part [] = []
dir_part (p ∷ []) = [] ∷ []
dir_part (p ∷ q ∷ ps) = p ∷ dir_part (q ∷ ps)

-- `filepath.Dir`
unfoldable pub dir_of : Bytes → Bytes
unfolding clean
dir_of path = clean (join b'/' (dir_part (split b'/' path)))

-- How many bytes stand after the last dot of a text, and none if it has no dot.
unfoldable pub after_dot : Bytes → Option ℕ
after_dot [] = none
after_dot (c ∷ s) =
    let later = after_dot s in
    elim later [ some n ↦ some n | none ↦ if c == b'.' then some (length s) else none ]

abbrev pub last_part : Bytes → List Bytes → Bytes
last_part p [] = p
last_part p (q ∷ qs) = last_part q qs

abbrev pub base_of : List Bytes → Bytes
base_of [] = []
base_of (p ∷ ps) = last_part p ps

-- The length of `filepath.Ext`: the last element's text from its last dot on.
unfoldable pub ext_length : Bytes → ℕ
unfolding after_dot
ext_length path = elim (after_dot (base_of (split b'/' path))) [ none ↦ 0 | some n ↦ suc n ]

abbrev pub parts_of : Bytes → List Bytes
parts_of path = reverse_parts (push_all (is_rooted path) [] (split b'/' path)) []

-- `filepath.Rel`, on the components of both paths: `none` is its error.
unfoldable pub ups : List Bytes → List Bytes → List Bytes
ups [] target = target
ups (b ∷ base) target = text ".." ∷ ups base target

unfoldable pub rel_parts : List Bytes → List Bytes → Option (List Bytes)
unfolding ups
rel_parts [] target = some target
rel_parts (b ∷ base) [] = if eq_bytes b (text "..") then none else some (ups (b ∷ base) [])
rel_parts (b ∷ base) (t ∷ target) =
    let rest = rel_parts base target in
    if eq_bytes b t
    then rest
    else if eq_bytes b (text "..")
    then none
    else some (ups (b ∷ base) (t ∷ target))

abbrev pub relative : Option (List Bytes) → Option Bytes
relative none = none
relative (some []) = some (text ".")
relative (some (c ∷ cs)) = some (join b'/' (c ∷ cs))

unfoldable pub rel : Bytes → Bytes → Option Bytes
unfolding rel_parts push_all split
rel base target =
    if is_rooted base
    then if is_rooted target then relative (rel_parts (parts_of base) (parts_of target)) else none
    else if is_rooted target
    then none
    else relative (rel_parts (parts_of base) (parts_of target))
