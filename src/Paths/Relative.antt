-- ===== src/Paths/Relative.antt =====
-- `filepath.Rel` and `filepath.Join` of paths below a rooted folder, as `Zip` and `Unzip` of
-- internal/service/util/file.go use them.
use go_template_aerospike.Prelude.{
  Bytes, text, eq_bytes, eq_bytes_iff, eq_bytes_refl, true, false, some, List, [], ◌∷◌, ◌++◌, ◌≡◌,
  ◌≢◌, refl, sym, ap, ◌∙◌, arith, ◌||◌, append_assoc, ◌==◌, split, join, split-join, split-ne-nil,
  Lacks, All, All-append, Bool-cases, inl, inr,
}
use go_template_aerospike.Paths.{
  go_up, push, push_all, reverse_parts, render, join_path, parts_of, rel_parts, relative, rel,
}
use go_template_aerospike.Paths.Below.{IsOrdinary, IsLocal, pushed, stack_of, stack_of-join}

-- A component that names something and has no slash.
abbrev IsName : Bytes → Type 0
IsName c = IsOrdinary c × Lacks b'/' c

-- The tests of `Clean` on a component that names something.
tests :
    (c : Bytes)
    → IsOrdinary c
    → ((eq_bytes c [] || eq_bytes c (text ".")) ≡ false) × (eq_bytes c (text "..") ≡ false)
tests c (some_c, dot, dots) = ground (
  arith,
  eq_bytes_iff c [],
  eq_bytes_iff c (text "."),
  eq_bytes_iff c (text ".."),
  some_c,
  dot,
  dots,
)

tests-IsOrdinary :
    (c : Bytes)
    → (eq_bytes c [] || eq_bytes c (text ".")) ≡ false
    → eq_bytes c (text "..") ≡ false
    → IsOrdinary c
tests-IsOrdinary c skip dots = (
  (λ e. ground (arith, e, skip, eq_bytes_iff c [])),
  (λ e. ground (arith, e, skip, eq_bytes_iff c (text "."))),
  (λ e. ground (arith, e, dots, eq_bytes_iff c (text ".."))),
)

split-All : (s : Bytes) → All (Lacks b'/') (split b'/' s)
unfolding split
split-All [] = (tt, tt)
split-All (x ∷ s) =
    let rest = split-All s in
    let (p, (ps, e)) = split-ne-nil b'/' s in
    elim (Bool-cases (x == b'/')) [
      | inl hit ↦ rw hit (tt, rest)
      | inr miss ↦
          let (lack, lacks) = rw e at rest in
          rw miss (rw e ((λ q. ground (arith, miss, q), lack), lacks))
    ]

go_up-All : (cs : List Bytes) → All IsName cs → All IsName (go_up true cs)
unfolding go_up
go_up-All [] h = tt
go_up-All (c ∷ cs) ((ordinary, lacks), h) = rw (tests c ordinary).1 h

push-All :
    (cs : List Bytes) (p : Bytes) → All IsName cs → Lacks b'/' p → All IsName (push true cs p)
unfolding push
push-All cs p h lacks = elim (Bool-cases (eq_bytes p [] || eq_bytes p (text "."))) [
  | inl skip ↦ rw skip h
  | inr keep ↦ elim (Bool-cases (eq_bytes p (text ".."))) [
    | inl dots ↦ rw (keep, dots) (go_up-All cs h)
    | inr plain ↦ rw (keep, plain) ((tests-IsOrdinary p keep plain, lacks), h)
  ]
]

push_all-All :
    (cs ps : List Bytes) → All IsName cs → All (Lacks b'/') ps → All IsName (push_all true cs ps)
unfolding push_all
push_all-All cs [] h lacks = h
push_all-All cs (p ∷ ps) h (lack, lacks) =
    push_all-All (push true cs p) ps (push-All cs p h lack) lacks

-- Names are pushed as they are.
push_all-reverse : (cs ps : List Bytes) → All IsName ps → push_all true cs ps ≡ reverse_parts ps cs
unfolding push_all push
push_all-reverse cs [] h = refl
push_all-reverse cs (p ∷ ps) ((ordinary, lacks), h) =
    rw ((tests p ordinary).0, (tests p ordinary).1) (push_all-reverse (p ∷ cs) ps h)

pushed-reverse : (cs ps : List Bytes) → All IsName ps → pushed cs ps ≡ reverse_parts ps cs
unfolding pushed
pushed-reverse cs [] h = refl
pushed-reverse cs (p ∷ ps) ((ordinary, lacks), h) =
    rw (tests p ordinary).0 (pushed-reverse (p ∷ cs) ps h)

reverse-append :
    (xs ys zs : List Bytes) → reverse_parts (xs ++ ys) zs ≡ reverse_parts ys (reverse_parts xs zs)
reverse-append [] ys zs = refl
reverse-append (x ∷ xs) ys zs = reverse-append xs ys (x ∷ zs)

reverse-onto : (xs ys : List Bytes) → reverse_parts xs ys ≡ reverse_parts xs [] ++ ys
reverse-onto [] ys = refl
reverse-onto (x ∷ xs) ys =
    reverse-onto xs (x ∷ ys)
    ∙ sym (append_assoc (reverse_parts xs []) (x ∷ []) ys)
    ∙ ap (λ l. l ++ ys) (sym (reverse-onto xs (x ∷ [])))

reverse-reverse : (xs : List Bytes) → reverse_parts (reverse_parts xs []) [] ≡ xs
reverse-reverse [] = refl
reverse-reverse (x ∷ xs) =
    ap (λ l. reverse_parts l []) (reverse-onto xs (x ∷ []))
    ∙ reverse-append (reverse_parts xs []) (x ∷ []) []
    ∙ ap (λ l. x ∷ l) (reverse-reverse xs)

reverse-All :
    (xs ys : List Bytes) → All IsName xs → All IsName ys → All IsName (reverse_parts xs ys)
reverse-All [] ys hx hy = hy
reverse-All (x ∷ xs) ys (h, hx) hy = reverse-All xs (x ∷ ys) hx (h, hy)

-- The rest of a path is what is relative to its start.
rel_parts-append : (base more : List Bytes) → rel_parts base (base ++ more) ≡ some more
unfolding rel_parts
rel_parts-append [] more = refl
rel_parts-append (b ∷ base) more = rw (rel_parts, eq_bytes_refl b) (rel_parts-append base more)

All-names : (cs : List Bytes) → All IsName cs → All (Lacks b'/') cs
All-names [] h = tt
All-names (c ∷ cs) ((ordinary, lacks), h) = (lacks, All-names cs h)

-- A path that is written out of names is read as these names.
stack_of-render : (cs : List Bytes) → All IsName cs → stack_of (render true cs) ≡ cs
unfolding render split push_all push
stack_of-render [] h = refl
stack_of-render (c ∷ cs) h =
    let parts = reverse_parts (c ∷ cs) [] in
    let named = reverse-All (c ∷ cs) [] h tt in
    let some_parts : parts ≢ [] =
      λ e. ground (arith, ap (λ l. reverse_parts l []) e, reverse-reverse (c ∷ cs)) in
    ap (push_all true []) (split-join b'/' parts some_parts (All-names parts named))
    ∙ push_all-reverse [] parts named
    ∙ reverse-reverse (c ∷ cs)

pushed-names :
    (cs ps : List Bytes)
    → All IsName cs
    → All (Lacks b'/') ps
    → All (λ c. c ≢ text "..") ps
    → All IsName (pushed cs ps)
unfolding pushed
pushed-names cs [] h lacks local = h
pushed-names cs (p ∷ ps) h (lack, lacks) (plain, local) =
    elim (Bool-cases (eq_bytes p [] || eq_bytes p (text "."))) [
      | inl skip ↦ rw skip (pushed-names cs ps h lacks local)
      | inr keep ↦
          let dots : eq_bytes p (text "..") ≡ false =
            ground (arith, eq_bytes_iff p (text ".."), plain) in
          rw keep (pushed-names (p ∷ cs) ps ((tests-IsOrdinary p keep dots, lack), h) lacks local)
    ]

names-local : (ps : List Bytes) → All IsName ps → All (λ c. c ≢ text "..") ps
names-local [] h = tt
names-local (p ∷ ps) (((some_p, dot, dots), lacks), h) = (dots, names-local ps h)

-- What `Rel` makes of the components is read as these components.
relative_lem :
    (q : List Bytes)
    → All IsName q
    → (n : Bytes) × (relative (some q) ≡ some n)
      × IsLocal n
      × (pushed [] (split b'/' n) ≡ reverse_parts q [])
unfolding split pushed
relative_lem [] h = (text ".", refl, ((λ e. ground (arith, e)), tt), refl)
relative_lem (x ∷ xs) h =
    let back = split-join b'/' (x ∷ xs) (λ e. ground (arith, e)) (All-names (x ∷ xs) h) in
    (
      join b'/' (x ∷ xs),
      refl,
      rw back (names-local (x ∷ xs) h),
      ap (pushed []) back ∙ pushed-reverse [] (x ∷ xs) h,
    )

-- `Rel` of a rooted folder and a path below it, as components.
rel-render :
    (d : Bytes) (more : List Bytes)
    → All IsName more
    → rel (b'/' ∷ d) (render true (more ++ stack_of (b'/' ∷ d)))
      ≡ relative (some (reverse_parts more []))
unfolding rel render
rel-render d more h =
    let base = stack_of (b'/' ∷ d) in
    let named = push_all-All [] (split b'/' (b'/' ∷ d)) tt (split-All (b'/' ∷ d)) in
    let target : parts_of (render true (more ++ base))
        ≡ reverse_parts base [] ++ reverse_parts more [] =
      ap (λ l. reverse_parts l [])
        (stack_of-render (more ++ base) (All-append IsName more base h named))
      ∙ reverse-append more base []
      ∙ reverse-onto base (reverse_parts more []) in
    ap (λ l. relative (rel_parts (parts_of (b'/' ∷ d)) l)) target
    ∙ ap relative (rel_parts-append (reverse_parts base []) (reverse_parts more []))

-- A rooted folder joined with the path that `Rel` gives for a path below it is that path.
pub join_path-rel :
    (d name : Bytes)
    → IsLocal name
    → (n : Bytes) × (rel (b'/' ∷ d) (join_path (b'/' ∷ d) name) ≡ some n)
      × (join_path (b'/' ∷ d) n ≡ join_path (b'/' ∷ d) name)
join_path-rel d name local =
    let more = pushed [] (split b'/' name) in
    let named = pushed-names [] (split b'/' name) tt (split-All name) local in
    let path = stack_of-join b'/' d name local in
    let (n, e, plain, back) = relative_lem (reverse_parts more []) (reverse-All more [] named tt) in
    (
      n,
      ap (rel (b'/' ∷ d)) path ∙ rel-render d more named ∙ e,
      stack_of-join b'/' d n plain
          ∙ ap (λ m. render true (m ++ stack_of (b'/' ∷ d))) (back ∙ reverse-reverse more)
          ∙ sym path,
    )
