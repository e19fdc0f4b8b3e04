-- ===== src/Cli/Artifact/Directories/Listed.antt =====
-- Which directories `resolve_link_search_path_values` of cli/cargo-ohrs/src/build/artifact.rs lists.
use ohos_rs.Common.{
  true, false, none, some, List, [], ◌∷◌, map, ◌≡◌, refl, ◌↔◌, ◌⊎◌, inl, inr, subst, ap, sym, ◌∙◌,
  arith, All, Bool-cases, Option-cases,
}
use ohos_rs.Common.Text.{Text, mem_text}
use ohos_rs.Common.Members.{IsDistinct, mem-cons-cases, mem-cons-old, mem-cons-new}
use ohos_rs.Cli.Path.{strip_link_search_kind}
use ohos_rs.Cli.Artifact.{Host, identity}
use ohos_rs.Cli.Artifact.Directories.{
  path_starts_with, is_excluded, usable_directory, collect_directories,
  resolve_link_search_path_values,
}

is_excluded-All :
    (host : Host) (roots : List Text) (q : Text)
    → (is_excluded (map (identity host) roots) q ≡ false)
      ↔ All (λ r. path_starts_with q (identity host r) ≡ false) roots
unfolding is_excluded
is_excluded-All host [] q = (λ h. tt, λ h. refl)
is_excluded-All host (r ∷ rs) q = ground (arith, is_excluded-All host rs q)

module _ (host : Host) (roots : List Text) where
  -- The value names a directory that is `q` and stands under none of the roots.
  abbrev pub Gives : Text → Text → Type 0
  Gives q v =
      (host.is_dir (strip_link_search_kind v) ≡ true)
      × (host.canonicalize (strip_link_search_kind v) ≡ some q)
      × All (λ r. path_starts_with q (identity host r) ≡ false) roots

module _ (host : Host) (excluded : List Text) where
  usable_directory_iff :
      (v q : Text)
      → (usable_directory host excluded v ≡ some q) ↔ (
          (host.is_dir (strip_link_search_kind v) ≡ true)
          × (host.canonicalize (strip_link_search_kind v) ≡ some q)
          × (is_excluded excluded q ≡ false))
  unfolding usable_directory
  usable_directory_iff v q = ground arith

  -- The steps of the loop.
  collect_directories-none :
      (seen vs : List Text) (v : Text)
      → usable_directory host excluded v ≡ none
      → collect_directories host excluded seen (v ∷ vs) ≡ collect_directories host excluded seen vs
  unfolding collect_directories
  collect_directories-none seen vs v e = ground arith

  collect_directories-old :
      (seen vs : List Text) (v d : Text)
      → usable_directory host excluded v ≡ some d
      → mem_text d seen ≡ true
      → collect_directories host excluded seen (v ∷ vs) ≡ collect_directories host excluded seen vs
  unfolding collect_directories
  collect_directories-old seen vs v d e m = ground arith

  collect_directories-new :
      (seen vs : List Text) (v d : Text)
      → usable_directory host excluded v ≡ some d
      → mem_text d seen ≡ false
      → collect_directories host excluded seen (v ∷ vs)
        ≡ d ∷ collect_directories host excluded (d ∷ seen) vs
  unfolding collect_directories
  collect_directories-new seen vs v d e m = ground arith

  loop-cases :
      (seen vs : List Text) (v : Text)
      → (collect_directories host excluded seen (v ∷ vs)
            ≡ collect_directories host excluded seen vs)
          × ((d : Text) → usable_directory host excluded v ≡ some d → mem_text d seen ≡ true)
        ⊎ ((d : Text) × (usable_directory host excluded v ≡ some d)
            × (mem_text d seen ≡ false)
            × (collect_directories host excluded seen (v ∷ vs)
                ≡ d ∷ collect_directories host excluded (d ∷ seen) vs))
  loop-cases seen vs v = elim (Option-cases (usable_directory host excluded v)) [
    | inl e ↦ inl (collect_directories-none seen vs v e, λ d s. absurd (cc))
    | inr (d, e) ↦ elim (Bool-cases (mem_text d seen)) [
      | inl m ↦ inl (collect_directories-old seen vs v d e m, λ d' s. ground arith)
      | inr m ↦ inr (d, e, m, collect_directories-new seen vs v d e m)
    ]
  ]

  not_newer :
      (d : Text) (seen : List Text) (q : Text)
      → mem_text q (d ∷ seen) ≡ false
      → mem_text q seen ≡ false
  unfolding mem_text
  not_newer d seen q h = ground arith

  -- A directory that is listed was not seen before, and some value gives it.
  collect_directories-source :
      (seen vs : List Text) (q : Text)
      → mem_text q (collect_directories host excluded seen vs) ≡ true
      → (mem_text q seen ≡ false)
        × ((v : Text) × (mem_text v vs ≡ true) × (usable_directory host excluded v ≡ some q))
  collect_directories-source seen [] q h = absurd (unfold collect_directories mem_text in cc)
  collect_directories-source seen (v ∷ vs) q h = elim (loop-cases seen vs v) [
    | inl (same, old) ↦
        let (new, (w, m, u)) =
          collect_directories-source seen vs q (subst (λ l. mem_text q l ≡ true) same h) in
        (new, (w, mem-cons-old v vs w m, u))
    | inr (d, e, new, grown) ↦
        elim (mem-cons-cases d _ q (subst (λ l. mem_text q l ≡ true) grown h)) [
          | inl same ↦ (
            subst (λ x. mem_text x seen ≡ false) same new,
            (v, mem-cons-new v vs, e ∙ ap (λ x. some x) same),
          )
          | inr later ↦
              let (other, (w, m, u)) = collect_directories-source (d ∷ seen) vs q later in
              (not_newer d seen q other, (w, mem-cons-old v vs w m, u))
        ]
  ]

  moved :
      (d : Text) (seen l : List Text) (q : Text)
      → (mem_text q (d ∷ seen) ≡ true) ⊎ (mem_text q l ≡ true)
      → (mem_text q seen ≡ true) ⊎ (mem_text q (d ∷ l) ≡ true)
  unfolding mem_text
  moved d seen l q h = ground arith

  first :
      (seen vs : List Text) (v q : Text)
      → usable_directory host excluded v ≡ some q
      → (mem_text q seen ≡ true)
        ⊎ (mem_text q (collect_directories host excluded seen (v ∷ vs)) ≡ true)
  first seen vs v q u = elim (Bool-cases (mem_text q seen)) [
    | inl old ↦ inl old
    | inr new ↦ inr (
        subst (λ l. mem_text q l ≡ true) (sym (collect_directories-new seen vs v q u new))
          (mem-cons-new q _))
  ]

  -- What a value gives is listed, or was seen before.
  collect_directories_complete :
      (seen vs : List Text) (v q : Text)
      → mem_text v vs ≡ true
      → usable_directory host excluded v ≡ some q
      → (mem_text q seen ≡ true) ⊎ (mem_text q (collect_directories host excluded seen vs) ≡ true)
  collect_directories_complete seen [] v q m u = absurd (unfold mem_text in cc)
  collect_directories_complete seen (w ∷ vs) v q m u = elim (mem-cons-cases w vs v m) [
    | inl same ↦
        first seen vs w q (subst (λ x. usable_directory host excluded x ≡ some q) (sym same) u)
    | inr later ↦ elim (loop-cases seen vs w) [
      | inl (same, old) ↦
          subst (λ l. (mem_text q seen ≡ true) ⊎ (mem_text q l ≡ true)) (sym same)
            (collect_directories_complete seen vs v q later u)
      | inr (d, e, new, grown) ↦
          subst (λ l. (mem_text q seen ≡ true) ⊎ (mem_text q l ≡ true)) (sym grown)
            (moved d seen _ q (collect_directories_complete (d ∷ seen) vs v q later u))
    ]
  ]

  never_again :
      (d : Text) (seen vs : List Text)
      → mem_text d (collect_directories host excluded (d ∷ seen) vs) ≡ false
  never_again d seen vs =
      elim (Bool-cases (mem_text d (collect_directories host excluded (d ∷ seen) vs))) [
        | inl m ↦
            let (new, source) = collect_directories-source (d ∷ seen) vs d m in
            absurd (newest d seen new)
        | inr m ↦ m
      ]
    where
      newest : (d : Text) (seen : List Text) → mem_text d (d ∷ seen) ≡ false → ⊥
      newest d seen h = ground (arith, mem-cons-new d seen)

  collect_directories-IsDistinct :
      (seen vs : List Text) → IsDistinct (collect_directories host excluded seen vs)
  collect_directories-IsDistinct seen [] = unfold collect_directories in tt
  collect_directories-IsDistinct seen (v ∷ vs) = elim (loop-cases seen vs v) [
    | inl (same, old) ↦ subst IsDistinct (sym same) (collect_directories-IsDistinct seen vs)
    | inr (d, e, new, grown) ↦
        subst IsDistinct (sym grown)
          (never_again d seen vs, collect_directories-IsDistinct (d ∷ seen) vs)
  ]

-- The search directories of a build script have no repetition, and they are exactly the canonical
-- forms of those values, without the kind, that name directories with a canonical form under none
-- of the excluded roots.
pub resolve_link_search_path_values-Mem :
    (host : Host) (values roots : List Text)
    → IsDistinct (resolve_link_search_path_values host values roots)
      × ((q : Text)
          → (mem_text q (resolve_link_search_path_values host values roots) ≡ true)
            ↔ ((v : Text) × (mem_text v values ≡ true) × Gives host roots q v))
unfolding resolve_link_search_path_values
resolve_link_search_path_values-Mem host values roots =
    let excluded = map (identity host) roots in
    (
      collect_directories-IsDistinct host excluded [] values,
      λ q. (
        λ m.
            let (new, (v, mv, u)) = collect_directories-source host excluded [] values q m in
            let (dir, real, out) = (usable_directory_iff host excluded v q).0 u in
            (v, mv, (dir, real, (is_excluded-All host roots q).0 out)),
        λ (v, mv, (dir, real, out)).
            elim (collect_directories_complete host excluded [] values v q mv (
              (usable_directory_iff host excluded v q).1
                (dir, real, (is_excluded-All host roots q).1 out))) [
                  | inl seen ↦ absurd (unfold mem_text in cc)
                  | inr m ↦ m
                ],
      ),
    )
