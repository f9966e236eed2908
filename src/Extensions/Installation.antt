-- ===== src/Extensions/Installation.antt =====
-- The runtime that is made of a list of plugins.
use mathlib.Core.Path.{subst}
use app_gocms.Prelude.{
  ◌≡◌, refl, sym, ap, ◌∙◌, inl, inr, Bool, true, false, Option, none, some, List, [], ◌∷◌, ◌++◌,
  arith, is_some, if◌then◌else◌, Result, ok, err, Error, Bool-cases, All,
}
use app_gocms.Prelude.Errors.{ok-injective}
use app_gocms.Text.{Text, codes, ◌==◌}
use app_gocms.Text.Quote.{quote}
use app_gocms.Text.Laws.{==_refl}
use app_gocms.Extensions.{
  installed, Plugin, Runtime, plugin_named, with_state, validate_manifest, install, install_all,
  new_runtime,
}

module _ {H D : Type 0} where
  named-append_some :
      (id : Text) (xs ys : List (Text × Plugin H D)) (q : Plugin H D)
      → plugin_named id xs ≡ some q
      → plugin_named id (xs ++ ys) ≡ some q
  unfolding plugin_named
  named-append_some id [] ys q h = absurd (ground arith)
  named-append_some id ((key, p) ∷ xs) ys q h = elim (Bool-cases (key == id)) [
    | inl e ↦ rw e (rw e at h)
    | inr e ↦ rw e (named-append_some id xs ys q (rw e at h))
  ]

  named-append_none :
      (id : Text) (xs : List (Text × Plugin H D)) (q : Plugin H D)
      → is_some (plugin_named id xs) ≡ false
      → plugin_named id (xs ++ (id, q) ∷ []) ≡ some q
  unfolding plugin_named
  named-append_none id [] q h = rw (==_refl id) refl
  named-append_none id ((key, p) ∷ xs) q h = elim (Bool-cases (key == id)) [
    | inl e ↦ absurd (ground (arith, rw e at h))
    | inr e ↦ rw e (named-append_none id xs q (rw e at h))
  ]

  abbrev with_plugin : Plugin H D → Runtime H D → Runtime H D
  with_plugin p r = record r {
    plugins = r.plugins ++ (p.manifest.id, p) ∷ [];
    states = with_state p.manifest.id installed r.states;
  }

  install_ok :
      (p : Plugin H D) (r r' : Runtime H D)
      → install p r ≡ ok r'
      → (validate_manifest p.manifest ≡ none)
        × (is_some (plugin_named p.manifest.id r.plugins) ≡ false)
        × (with_plugin p r ≡ r')
  unfolding install
  install_ok p r r' =
      from (validate_manifest p.manifest) (is_some (plugin_named p.manifest.id r.plugins))
    where
      from :
          (v : Option Error) (b : Bool)
          → (elim v as (λ _. Result (Runtime H D)) [
            | some e ↦ err e
            | none ↦
                if b
                then err (codes "duplicate plugin " ++ quote p.manifest.id)
                else ok (with_plugin p r)
          ])
            ≡ ok r'
          → (v ≡ none) × (b ≡ false) × (with_plugin p r ≡ r')
      from (some e) b h = absurd (ground arith)
      from none true h = absurd (ground arith)
      from none false h = (refl, refl, ok-injective (with_plugin p r) r' h)

  -- The manifest is in order, and the plugin is found under its id.
  pub record IsInstalled (r : Runtime H D) (p : Plugin H D) : Type 0 where
    pub valid : validate_manifest p.manifest ≡ none
    pub found : plugin_named p.manifest.id r.plugins ≡ some p

  install_all_ok :
      (ps : List (Plugin H D)) (r r' : Runtime H D)
      → install_all ps r ≡ ok r'
      → All (IsInstalled r') ps
        × ((id : Text) (q : Plugin H D)
            → plugin_named id r.plugins ≡ some q
            → plugin_named id r'.plugins ≡ some q)
  unfolding install_all
  install_all_ok [] r r' h = (
    tt,
    λ id q known. subst (λ x. plugin_named id x.plugins ≡ some q) (ok-injective r r' h) known,
  )
  install_all_ok (p ∷ ps) r r' h = from (install p r) refl (λ n. install_all_ok ps n r') h
    where
      from :
          (m : Result (Runtime H D))
          → install p r ≡ m
          → ((n : Runtime H D)
              → install_all ps n ≡ ok r'
              → All (IsInstalled r') ps
                × ((id : Text) (q : Plugin H D)
                    → plugin_named id n.plugins ≡ some q
                    → plugin_named id r'.plugins ≡ some q))
          → (elim m as (λ _. Result (Runtime H D)) [
            | ok next ↦ install_all ps next
            | err e ↦ err e
          ])
            ≡ ok r'
          → All (IsInstalled r') (p ∷ ps)
            × ((id : Text) (q : Plugin H D)
                → plugin_named id r.plugins ≡ some q
                → plugin_named id r'.plugins ≡ some q)
      from (err e) i later g = absurd (ground arith)
      from (ok n) i later g =
          let (valid, fresh, same) = install_ok p r n i in
          let (all, keeps) = later n g in
          let plugins = ap (λ (x : Runtime H D). x.plugins) same in
          (
            (
              record {
                valid = valid;
                found = keeps p.manifest.id p (
                    ap (plugin_named p.manifest.id) (sym plugins)
                    ∙ named-append_none p.manifest.id r.plugins p fresh);
              },
              all,
            ),
            λ id q known.
                keeps id q
                  (ap (plugin_named id) (sym plugins) ∙ named-append_some id r.plugins _ q known),
          )

  -- When a runtime is made of a list of plugins, the manifest of each is in order, and each is
  -- found under its own id: no two different plugins have the same one.
  new_runtime_exact :
      (ps : List (Plugin H D)) (r : Runtime H D) → new_runtime ps ≡ ok r → All (IsInstalled r) ps
  unfolding new_runtime
  new_runtime_exact ps r h = (install_all_ok ps _ r h).0
