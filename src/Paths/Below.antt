-- ===== src/Paths/Below.antt =====
-- Names joined to a folder (`filepath.Join`, as internal/service/util/file.go uses it): those below the
-- folder and those that leave it.
use go_template_aerospike.Prelude.{
  ℕ, Bytes, text, eq_bytes, eq_bytes_iff, Bool, ◌||◌, List, [], ◌∷◌, ◌++◌, ◌≡◌, ◌≢◌, refl, sym, ap,
  ◌∙◌, arith, ◌==◌, if◌then◌else◌, split, split-append, append_assoc, Lacks, split-Lacks, All,
  Bool-cases, inl, inr,
}
use go_template_aerospike.Paths.{go_up, push, push_all, is_rooted, render, clean, join_path}

-- A component that names something: not empty, `.` or `..`.
abbrev pub IsOrdinary : Bytes → Type 0
IsOrdinary c = (c ≢ []) × (c ≢ text ".") × (c ≢ text "..")

-- No component of a name is `..`.
abbrev pub IsLocal : Bytes → Type 0
IsLocal name = All (λ c. c ≢ text "..") (split b'/' name)

-- The components of the name that stay, the last one first, on top of others.
unfoldable pub pushed : List Bytes → List Bytes → List Bytes
pushed cs [] = cs
pushed cs (p ∷ ps) = pushed (if eq_bytes p [] || eq_bytes p (text ".") then cs else p ∷ cs) ps

push_all-pushed :
    (rooted : Bool) (cs ps : List Bytes)
    → All (λ c. c ≢ text "..") ps
    → push_all rooted cs ps ≡ pushed cs ps
unfolding push_all pushed push
push_all-pushed rooted cs [] h = refl
push_all-pushed rooted cs (p ∷ ps) (plain, h) =
    ground
      (arith, push_all-pushed rooted (push rooted cs p) ps h, eq_bytes_iff p (text ".."), plain)

push_all-append :
    (rooted : Bool) (cs ps qs : List Bytes)
    → push_all rooted cs (ps ++ qs) ≡ push_all rooted (push_all rooted cs ps) qs
unfolding push_all
push_all-append rooted cs [] qs = refl
push_all-append rooted cs (p ∷ ps) qs = push_all-append rooted (push rooted cs p) ps qs

-- What stands on top: the list of pushed components is the new ones before the old.
pushed-append : (cs ps : List Bytes) → pushed cs ps ≡ pushed [] ps ++ cs
unfolding pushed
pushed-append cs [] = refl
pushed-append cs (p ∷ ps) = elim (Bool-cases (eq_bytes p [] || eq_bytes p (text "."))) [
  | inl skip ↦ rw skip (pushed-append cs ps)
  | inr keep ↦ rw keep (
      pushed-append (p ∷ cs) ps
      ∙ sym (append_assoc (pushed [] ps) (p ∷ []) cs)
      ∙ ap (λ l. l ++ cs) (sym (pushed-append (p ∷ []) ps)))
]

-- The components of a path, the last one first.
abbrev pub stack_of : Bytes → List Bytes
stack_of path = push_all (is_rooted path) [] (split b'/' path)

-- A path is the folder itself or below it: its components are the folder's and then ordinary ones.
abbrev pub IsBelow : Bytes → Bytes → Type 0
IsBelow dir path =
    (more : List Bytes) × (path ≡ render (is_rooted dir) (more ++ stack_of dir))
    × All (λ c. c ≢ text "..") more

pushed-All :
    (cs ps : List Bytes)
    → All (λ c. c ≢ text "..") cs
    → All (λ c. c ≢ text "..") ps
    → All (λ c. c ≢ text "..") (pushed cs ps)
unfolding pushed
pushed-All cs [] hc h = hc
pushed-All cs (p ∷ ps) hc (hp, h) = elim (Bool-cases (eq_bytes p [] || eq_bytes p (text "."))) [
  | inl skip ↦ rw skip (pushed-All cs ps hc h)
  | inr keep ↦ rw keep (pushed-All (p ∷ cs) ps (hp, hc) h)
]

-- What the components of a folder joined with a name are: those of the name on top of the folder's.
pub stack_of-join :
    (c : ℕ) (dir name : Bytes)
    → IsLocal name
    → join_path (c ∷ dir) name
      ≡ render (c == b'/') (pushed [] (split b'/' name) ++ stack_of (c ∷ dir))
unfolding join_path clean
stack_of-join c dir name local =
    let whole = push_all-append (c == b'/') [] (split b'/' (c ∷ dir)) (split b'/' name) in
    let added = push_all-pushed (c == b'/') (stack_of (c ∷ dir)) (split b'/' name) local in
    rw (split-append b'/' (c ∷ dir) name) (
      ap (render (c == b'/'))
        (whole ∙ added ∙ pushed-append (stack_of (c ∷ dir)) (split b'/' name)))

-- Joining a name without `..` to a folder stays below the folder.
pub join_path-IsBelow :
    (dir name : Bytes) → dir ≢ [] → IsLocal name → IsBelow dir (join_path dir name)
join_path-IsBelow [] name h local = absurd (h refl)
join_path-IsBelow (c ∷ dir) name h local = (
  pushed [] (split b'/' name),
  stack_of-join c dir name local,
  pushed-All [] (split b'/' name) tt local,
)

push-cancel :
    (rooted : Bool) (cs ps : List Bytes) (d : Bytes)
    → IsOrdinary d
    → push_all rooted cs (d ∷ text ".." ∷ ps) ≡ push_all rooted cs ps
unfolding push_all push go_up
push-cancel rooted cs ps d (some_d, dot, dots) = ground (
  arith,
  eq_bytes_iff d [],
  eq_bytes_iff d (text "."),
  eq_bytes_iff d (text ".."),
  some_d,
  dot,
  dots,
)

split-parent :
    (d name : Bytes)
    → Lacks b'/' d
    → split b'/' (d ++ b'/' ∷ (text "../" ++ name)) ≡ d ∷ text ".." ∷ split b'/' name
unfolding split
split-parent d name lack =
    split-append b'/' d (text "../" ++ name)
    ∙ ap (λ l. l ++ split b'/' (text "../" ++ name)) (split-Lacks b'/' d lack)
    ∙ ap (λ l. d ∷ l) (split-append b'/' (text "..") name)

-- A name that starts with `..` leaves the folder that it is joined to, for its parent.
pub join_path-parent :
    (dir d name : Bytes)
    → dir ≢ []
    → IsOrdinary d
    → Lacks b'/' d
    → join_path (dir ++ b'/' ∷ d) (text "../" ++ name) ≡ join_path dir name
unfolding join_path clean
join_path-parent [] d name h ord lack = absurd (h refl)
join_path-parent (c ∷ dir) d name h ord lack =
    let root = c == b'/' in
    let longer =
      ap (λ l. push_all root [] (split b'/' l))
        (append_assoc (c ∷ dir) (b'/' ∷ d) (b'/' ∷ (text "../" ++ name))) in
    let parts =
      ap (push_all root []) (split-append b'/' (c ∷ dir) (d ++ b'/' ∷ (text "../" ++ name))) in
    let cancelled =
      push-cancel root (push_all root [] (split b'/' (c ∷ dir))) (split b'/' name) d ord in
    let back = ap (push_all root []) (split-append b'/' (c ∷ dir) name) in
    ap (render root) (
      longer
      ∙ parts
      ∙ ap (λ l. push_all root [] (split b'/' (c ∷ dir) ++ l)) (split-parent d name lack)
      ∙ push_all-append root [] (split b'/' (c ∷ dir)) (d ∷ text ".." ∷ split b'/' name)
      ∙ cancelled
      ∙ sym (push_all-append root [] (split b'/' (c ∷ dir)) (split b'/' name))
      ∙ sym back)
