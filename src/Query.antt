-- ===== src/Query.antt =====
-- Search and query options on their way from HTTP over gRPC to the database: `CreateSearchOptions` and
-- `ParseQueryOptions` (internal/service/util/util.go), `ParseQueryOptions` (internal/gapi/common), and
-- the messages of pkg/pb/SearchOptions.pb.go. The query builder is a third-party package.
pub mod RoundTrip
use go_template_aerospike.Prelude.{
  ℤ, pos, Bytes, text, Option, none, some, List, [], ◌∷◌, Checked, value, panic, and_then, Dict,
  set_key, copy_entries,
}

pub record StringList : Type 0 where
  pub str : List Bytes

pub record SearchOptions : Type 0 where
  pub fields : List Bytes
  -- a map of pointers
  pub filter : Dict (Option StringList)
  pub page : Dict ℤ
  pub sorts : List Bytes

-- `range` may visit a map in any order, which is `order`.
unfoldable pub create_search_options :
    (Dict (List Bytes) → Dict (List Bytes)) → Dict (List Bytes) → ℤ → ℤ → SearchOptions
create_search_options order filter page page_size = record {
  page = (text "page", page) ∷ (text "size", page_size) ∷ [];
  filter = copy_entries (λ v. some (record { str = v })) (order filter) [];
  fields = [];
  sorts = [];
}

-- `queryoptions.Options`
pub record Options : Type 0 where
  pub fields : List Bytes
  pub filter : Dict (List Bytes)
  pub page : Dict ℤ
  pub sort : List Bytes

-- `filter[k] = v.Str`: a nil pointer panics.
unfoldable pub read_filter :
    Dict (Option StringList) → Dict (List Bytes) → Checked (Dict (List Bytes))
read_filter [] out = value out
read_filter ((k, none) ∷ d) out = panic
read_filter ((k, some v) ∷ d) out = read_filter d (set_key k v.str out)

-- The orders in which the two loops visit their maps.
unfoldable pub parse_search_options :
    (Dict (Option StringList) → Dict (Option StringList))
    → (Dict ℤ → Dict ℤ)
    → SearchOptions
    → Checked Options
unfolding read_filter
parse_search_options filters pages so = and_then (read_filter (filters so.filter) []) λ filter.
    value (record {
      fields = so.fields;
      filter = filter;
      page = copy_entries (λ v. v) (pages so.page) [];
      sort = so.sorts;
    })

-- `options.FindOptions`, as far as it is read.
pub record FindOptions (Projection : Type 0) : Type 0 where
  pub projection : Option Projection
  pub skip : Option ℤ
  pub limit : Option ℤ

pub data Result (Error A : Type 0) : Type 0 where
  ok : A → Result Error A
  error : Error → Result Error A

-- What the schema builder makes of options.
pub record Builder (Error Filter Projection : Type 0) : Type 0 where
  pub filter_of : Options → Result Error Filter
  pub find_options : Options → Result Error (FindOptions Projection)

pub record Query (Filter Projection : Type 0) : Type 0 where
  pub filter : Filter
  pub sort : List Bytes
  pub skip : ℤ
  pub limit : ℤ
  pub projection : Option Projection

abbrev pub or_else : {A : Type 0} → Option A → A → A
or_else none a = a
or_else (some b) a = b

abbrev pub query_of :
    {Filter Projection : Type 0}
    → Options
    → Filter
    → FindOptions Projection
    → Query Filter Projection
query_of o filter opts = record {
  filter = filter;
  sort = o.sort;
  skip = or_else opts.skip (pos 0);
  limit = or_else opts.limit (pos 999999999999);
  projection = opts.projection;
}

module _ {Error Filter Projection : Type 0} where
  unfoldable pub parse_query_options :
      Builder Error Filter Projection → Options → Result Error (Query Filter Projection)
  parse_query_options builder o = elim (builder.filter_of o) [
    | error e ↦ error e
    | ok filter ↦ elim (builder.find_options o) [
      | error e ↦ error e
      | ok opts ↦ ok (query_of o filter opts)
    ]
  ]
