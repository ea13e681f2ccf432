-- ===== src/I18n.antt =====
-- Translation (internal/i18n/i18n.go). The message bundle, the matcher of languages and the parser of
-- language tags are third-party packages: parameters.
pub mod Laws
use go_template_aerospike.Prelude.{
  Bytes, text, eq_bytes, Bool, true, false, not, Option, none, some, List, [], ◌∷◌, ◌++◌, Dict,
  set_key, copy_entries, if◌then◌else◌, ◌||◌,
}
use go_template_aerospike.Query.{Result, ok, error}
use go_template_aerospike.Paths.{join_path}
use go_template_aerospike.Files.{DirEntry}
use go_template_aerospike.Config.{OtherConfig}

-- `i18n.LocalizeConfig`; the count is a parameter's type.
pub record LocalizeConfig (Count : Type 0) : Type 0 where
  pub message_id : Bytes
  pub plural_count : Option Count
  pub template_data : Option (Dict Bytes)

pub record Packages (Error Tag Bundle Count : Type 0) : Type 0 where
  -- the tag, Und if the text is malformed, and the error
  pub parse : Bytes → Tag × Option Error
  pub parse_accept_language : Bytes → List Tag × Option Error
  pub is_und : Tag → Bool
  pub tag_text : Tag → Bytes
  pub new_bundle : Tag → Bundle
  pub read_dir : Bytes → Result Error (List DirEntry)
  pub load_message_file : Bytes → Bundle → Result Error Bundle
  pub language_tags : Bundle → List Tag
  pub best_match : List Tag → List Tag → Tag
  pub localize : Bundle → Bytes → LocalizeConfig Count → Bytes × Option Error
  -- `fmt.Sprintf("%v", count)`
  pub count_text : Count → Bytes

-- `matcher` is a matcher of these tags.
pub record I18n (Tag Bundle : Type 0) : Type 0 where
  pub bundle : Bundle
  pub matcher : List Tag

pub data I18nError (Error : Type 0) : Type 0 where
  not_read : Error → I18nError Error
  not_loaded : Error → I18nError Error
  undetermined : I18nError Error

abbrev ends_here : Bytes → Bytes → Bool
ends_here suffix [] = eq_bytes [] suffix
ends_here suffix (c ∷ s) = let rest = ends_here suffix s in eq_bytes (c ∷ s) suffix || rest

-- `strings.HasSuffix`
unfoldable pub has_suffix : Bytes → Bytes → Bool
has_suffix s suffix = ends_here suffix s

module _ {Error Tag Bundle Count : Type 0} (packages : Packages Error Tag Bundle Count) where
  -- The loop over the files of the folder.
  unfoldable pub load_files : Bytes → List DirEntry → Bundle → Result (I18nError Error) Bundle
  unfolding has_suffix
  load_files dir [] bundle = ok bundle
  load_files dir (file ∷ files) bundle =
      elim (file.is_dir || not (has_suffix file.name (text ".toml"))) [
        | true ↦ load_files dir files bundle
        | false ↦ elim (packages.load_message_file (join_path dir file.name) bundle) [
          | error e ↦ error (not_loaded e)
          | ok more ↦ load_files dir files more
        ]
      ]

  unfoldable pub any_und : List Tag → Bool
  any_und [] = false
  any_und (t ∷ ts) = let rest = any_und ts in if packages.is_und t then true else rest

  abbrev pub checked : Bundle → Bool → Result (I18nError Error) (I18n Tag Bundle)
  checked bundle true = error undetermined
  checked bundle false = ok (record { bundle = bundle; matcher = packages.language_tags bundle })

  abbrev pub with_files :
      Result (I18nError Error) Bundle → Result (I18nError Error) (I18n Tag Bundle)
  with_files (error e) = error e
  with_files (ok bundle) = checked bundle (any_und (packages.language_tags bundle))

  -- A malformed default language is logged, and its tag used all the same.
  unfoldable pub new : OtherConfig → Result (I18nError Error) (I18n Tag Bundle)
  unfolding load_files any_und
  new cfg = elim (packages.read_dir cfg.bundle_dir_abs) [
    | error e ↦ error (not_read e)
    | ok files ↦ with_files (
        load_files cfg.bundle_dir_abs files
          (packages.new_bundle (packages.parse cfg.default_language).0))
  ]

  unfoldable pub translate_configurable :
      I18n Tag Bundle → Tag → LocalizeConfig Count → Bytes × Option Error
  translate_configurable m lang cfg = packages.localize m.bundle (packages.tag_text lang) cfg

  -- `data...`: what follows the first map is not read.
  abbrev pub first_data : List (Dict Bytes) → Option (Dict Bytes)
  first_data [] = none
  first_data (d ∷ ds) = some d

  unfoldable pub translate_maybe :
      I18n Tag Bundle → Bytes → Tag → List (Dict Bytes) → Bytes × Option Error
  unfolding translate_configurable
  translate_maybe m key lang data_maps =
      translate_configurable m lang
        (record { message_id = key; plural_count = none; template_data = first_data data_maps })

  abbrev pub or_text : Bytes × Option Error → Bytes → Bytes
  or_text (msg, none) other = msg
  or_text (msg, some e) other = other

  unfoldable pub translate : I18n Tag Bundle → Bytes → Tag → List (Dict Bytes) → Bytes
  unfolding translate_maybe
  translate m key lang data_maps = or_text (translate_maybe m key lang data_maps) key

  -- The template's data: the count, and over it the caller's entries, in the order that `range` visits.
  abbrev pub merged : (Dict Bytes → Dict Bytes) → Bytes → Option (Dict Bytes) → Dict Bytes
  merged order count none = set_key (text "Count") count []
  merged order count (some d) = copy_entries (λ v. v) (order d) (set_key (text "Count") count [])

  unfoldable pub plural_config :
      (Dict Bytes → Dict Bytes) → Bytes → Count → List (Dict Bytes) → LocalizeConfig Count
  plural_config order key count data_maps = record {
    message_id = key;
    plural_count = some count;
    template_data = some (merged order (packages.count_text count) (first_data data_maps));
  }

  unfoldable pub translate_plural_maybe :
      (Dict Bytes → Dict Bytes)
      → I18n Tag Bundle
      → Bytes
      → Count
      → Tag
      → List (Dict Bytes)
      → Bytes × Option Error
  unfolding translate_configurable plural_config
  translate_plural_maybe order m key count lang data_maps =
      translate_configurable m lang (plural_config order key count data_maps)

  unfoldable pub translate_plural :
      (Dict Bytes → Dict Bytes) → I18n Tag Bundle → Bytes → Count → Tag → List (Dict Bytes) → Bytes
  unfolding translate_plural_maybe
  translate_plural order m key count lang data_maps =
      or_text (translate_plural_maybe order m key count lang data_maps)
        (key ++ (text " (count=" ++ (packages.count_text count ++ text ")")))

  -- Errors are logged, and what was parsed is matched.
  unfoldable pub parse_accept_language : I18n Tag Bundle → Bytes → Tag
  parse_accept_language m lang =
      packages.best_match m.matcher (packages.parse_accept_language lang).0

  unfoldable pub parse_lang : I18n Tag Bundle → Bytes → Tag
  parse_lang m lang = packages.best_match m.matcher ((packages.parse lang).0 ∷ [])

  unfoldable pub tags : I18n Tag Bundle → List Tag
  tags m = packages.language_tags m.bundle
