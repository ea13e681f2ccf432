-- ===== src/I18n/Laws.antt =====
-- Which bundles `New` accepts, and what a translation's template reads.
use go_template_aerospike.Prelude.{
  Bytes, text, eq_bytes, Bool, true, false, none, some, List, [], ◌∷◌, ◌≡◌, refl, sym, ap, ◌∙◌,
  arith, All, Dict, IsDict, IsVisit, get_key, set_key, get_key-set_key, get_key-copy_entries, over,
  if◌then◌else◌, Bool-cases, inl, inr,
}
use go_template_aerospike.Query.{Result, ok, error}
use mathlib.Core.Path.{subst}
use go_template_aerospike.Files.{DirEntry}
use go_template_aerospike.Config.{OtherConfig}
use go_template_aerospike.I18n.{
  Packages, I18n, I18nError, load_files, any_und, checked, with_files, new, merged, plural_config,
  tags,
}

module _ {Error Tag Bundle Count : Type 0} (packages : Packages Error Tag Bundle Count) where
  any_und-All :
      (ts : List Tag) → any_und packages ts ≡ false → All (λ t. packages.is_und t ≡ false) ts
  unfolding any_und
  any_und-All [] h = tt
  any_und-All (t ∷ ts) h = elim (Bool-cases (packages.is_und t)) [
    | inl und ↦ ground (arith, h, und)
    | inr fine ↦ (fine, any_und-All ts (ground (arith, h, fine)))
  ]

  -- What a service that `New` returns is: its tags determined, its matcher that of its bundle.
  abbrev pub IsReady : I18n Tag Bundle → Type 0
  IsReady m = All (λ t. packages.is_und t ≡ false) (tags packages m) × (m.matcher ≡ tags packages m)

  checked-IsReady :
      (bundle : Bundle) (m : I18n Tag Bundle) (b : Bool)
      → any_und packages (packages.language_tags bundle) ≡ b
      → checked packages bundle b ≡ ok m
      → IsReady m
  unfolding tags
  checked-IsReady bundle m true e h = ground (arith, h)
  checked-IsReady bundle m false e h =
      let same : record { bundle = bundle; matcher = packages.language_tags bundle } ≡ m =
        ground (arith, h) in
      subst IsReady same (any_und-All (packages.language_tags bundle) e, refl)

  with_files-IsReady :
      (r : Result (I18nError Error) Bundle) (m : I18n Tag Bundle)
      → with_files packages r ≡ ok m
      → IsReady m
  with_files-IsReady (error e) m h = ground (arith, h)
  with_files-IsReady (ok bundle) m h =
      checked-IsReady bundle m (any_und packages (packages.language_tags bundle)) refl h

  -- When `New` returns a service, every language of its bundle is determined, and the service matches
  -- against the languages of the bundle.
  pub new-IsReady :
      (cfg : OtherConfig) (m : I18n Tag Bundle)
      → new packages cfg ≡ ok m
      → All (λ t. packages.is_und t ≡ false) (tags packages m) × (m.matcher ≡ tags packages m)
  unfolding new
  new-IsReady cfg m h = read (packages.read_dir cfg.bundle_dir_abs) refl
    where
      read :
          (r : Result Error (List DirEntry)) → packages.read_dir cfg.bundle_dir_abs ≡ r → IsReady m
      read (error e) failed = ground (arith, h, failed)
      read (ok files) listed =
          let r =
            load_files packages cfg.bundle_dir_abs files
              (packages.new_bundle (packages.parse cfg.default_language).0) in
          let e : new packages cfg ≡ with_files packages r = rw (new, listed) refl in
          with_files-IsReady r m (sym e ∙ h)

  -- What a plural's template reads under a name: the caller's text if the caller gave one, also for
  -- `Count`; otherwise the count under `Count`, and nothing under another name.
  pub plural_config-get_key :
      (order : Dict Bytes → Dict Bytes) (key k : Bytes) (count : Count) (d : Dict Bytes)
      (ds : List (Dict Bytes)) (t : Dict Bytes)
      → IsVisit order
      → IsDict d
      → (plural_config packages order key count (d ∷ ds)).template_data ≡ some t
      → get_key k t
        ≡ over
            (λ v. v)
            (get_key k d)
            (if eq_bytes (text "Count") k then some (packages.count_text count) else none)
  unfolding plural_config get_key
  plural_config-get_key order key k count d ds t visits h e =
      let (once, same) = visits d h in
      let base = set_key (text "Count") (packages.count_text count) [] in
      let is_t : merged packages order (packages.count_text count) (some d) ≡ t =
        ground (arith, e) in
      ap (get_key k) (sym is_t)
      ∙ get_key-copy_entries (λ v. v) (order d) base k once
      ∙ ap (λ o. over (λ v. v) o (get_key k base)) (same k)
      ∙ ap (λ o. over (λ v. v) (get_key k d) o)
          (get_key-set_key (text "Count") k (packages.count_text count) [])
