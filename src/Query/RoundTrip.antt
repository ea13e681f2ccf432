-- ===== src/Query/RoundTrip.antt =====
-- The options of a request on their way to the database query (internal/service/util/util.go,
-- internal/gapi/common/parse_query_options.go).
use go_template_aerospike.Prelude.{
  ℤ, Bytes, text, eq_bytes_iff, eq_bytes_refl, Option, none, some, List, [], ◌∷◌, ◌≡◌, ◌≢◌, refl,
  ap, ◌∙◌, arith, value, Dict, get_key, set_key, IsDict, IsVisit, copy_entries, over,
  get_key-copy_entries, copy_entries-IsDict, Option-cases,
}
use go_template_aerospike.Query.{
  StringList, SearchOptions, create_search_options, Options, read_filter, parse_search_options,
}

abbrev str_of : Option StringList → List Bytes
str_of none = []
str_of (some v) = v.str

-- No pointer of the map is nil.
abbrev pub IsFilled : Dict (Option StringList) → Type 0
IsFilled [] = Unit
IsFilled ((k, p) ∷ d) = (p ≢ none) × IsFilled d

read_filter-copy :
    (d : Dict (Option StringList)) (out : Dict (List Bytes))
    → IsFilled d
    → read_filter d out ≡ value (copy_entries str_of d out)
unfolding read_filter copy_entries
read_filter-copy [] out h = refl
read_filter-copy ((k, none) ∷ d) out (nonnil, h) = absurd (nonnil refl)
read_filter-copy ((k, some v) ∷ d) out (nonnil, h) = read_filter-copy d (set_key k v.str out) h

-- A map whose look-ups never give nil holds no nil.
get_key-IsFilled :
    (d : Dict (Option StringList)) → IsDict d → ((k : Bytes) → get_key k d ≢ some none) → IsFilled d
unfolding get_key
get_key-IsFilled [] u h = tt
get_key-IsFilled ((j, p) ∷ d) (free, u) h = (
  (λ e. h j (ground (arith, eq_bytes_refl j, e))),
  get_key-IsFilled d u (λ k e. ground (arith, h k, eq_bytes_iff j k, free)),
)

module _ (order : Dict (List Bytes) → Dict (List Bytes))
    (filters : Dict (Option StringList) → Dict (Option StringList)) (pages : Dict ℤ → Dict ℤ)
    (o : IsVisit order) (f : IsVisit filters) (p : IsVisit pages) (filter : Dict (List Bytes))
    (u : IsDict filter) (page size : ℤ) where
  abbrev made : SearchOptions
  made = create_search_options order filter page size

  made-lookup :
      (k : Bytes)
      → get_key k made.filter ≡ over (λ v. some (record { str = v })) (get_key k filter) none
  unfolding create_search_options get_key
  made-lookup k =
      get_key-copy_entries (λ v. some (record { str = v })) (order filter) [] k (o filter u).0
      ∙ ap (λ x. over (λ v. some (record { str = v })) x none) ((o filter u).1 k)

  made-IsDict : IsDict made.filter
  unfolding create_search_options
  made-IsDict = copy_entries-IsDict (λ v. some (record { str = v })) (order filter) [] tt

  made-IsFilled : IsFilled (filters made.filter)
  made-IsFilled =
      let (u', same) = f made.filter made-IsDict in
      get_key-IsFilled (filters made.filter) u'
        (λ k e. ground (arith, same k, made-lookup k, Option-cases (get_key k filter)))

  unwrapped :
      (x : Option (List Bytes))
      → over str_of (over (λ v. some (record { str = v })) x none) none ≡ x
  unwrapped none = refl
  unwrapped (some v) = refl

  filter_back :
      (k : Bytes) → get_key k (copy_entries str_of (filters made.filter) []) ≡ get_key k filter
  unfolding get_key
  filter_back k =
      let (u', same) = f made.filter made-IsDict in
      get_key-copy_entries str_of (filters made.filter) [] k u'
      ∙ ap (λ x. over str_of x none) (same k ∙ made-lookup k)
      ∙ unwrapped (get_key k filter)

  kept : (x : Option ℤ) → over (λ v. v) x none ≡ x
  kept none = refl
  kept (some v) = refl

  made_page-IsDict : IsDict made.page
  unfolding create_search_options get_key
  made_page-IsDict = (refl, (refl, tt))

  page_back :
      (k : Bytes) → get_key k (copy_entries (λ v. v) (pages made.page) []) ≡ get_key k made.page
  unfolding get_key
  page_back k =
      let (u', same) = p made.page made_page-IsDict in
      get_key-copy_entries (λ v. v) (pages made.page) [] k u'
      ∙ ap (λ x. over (λ v. v) x none) (same k)
      ∙ kept (get_key k made.page)

-- The options made of an HTTP filter, a page and a page size are read back by the gRPC side as the same
-- filter, key by key, the same page and size, and no fields and no sorting, whatever the orders in
-- which the three loops visit their maps; no pointer is nil on the way, so nothing panics.
pub parse_search_options-create_search_options :
    (order : Dict (List Bytes) → Dict (List Bytes))
    (filters : Dict (Option StringList) → Dict (Option StringList)) (pages : Dict ℤ → Dict ℤ)
    (filter : Dict (List Bytes)) (page size : ℤ)
    → IsVisit order
    → IsVisit filters
    → IsVisit pages
    → IsDict filter
    → (o : Options) × (parse_search_options filters pages
          (create_search_options order filter page size)
        ≡ value o)
      × ((k : Bytes) → get_key k o.filter ≡ get_key k filter)
      × (get_key (text "page") o.page ≡ some page)
      × (get_key (text "size") o.page ≡ some size)
      × (o.fields ≡ [])
      × (o.sort ≡ [])
unfolding parse_search_options
parse_search_options-create_search_options order filters pages filter page size o f p u =
    let so = create_search_options order filter page size in
    let full = made-IsFilled order filters pages o f p filter u page size in
    let same_page = page_back order filters pages o f p filter u page size in
    (
      record {
        fields = so.fields;
        filter = copy_entries str_of (filters so.filter) [];
        page = copy_entries (λ v. v) (pages so.page) [];
        sort = so.sorts;
      },
      rw (read_filter-copy (filters so.filter) [] full) refl,
      filter_back order filters pages o f p filter u page size,
      same_page (text "page") ∙ unfold create_search_options get_key in refl,
      same_page (text "size") ∙ unfold create_search_options get_key in refl,
      unfold create_search_options in refl,
      unfold create_search_options in refl,
    )
