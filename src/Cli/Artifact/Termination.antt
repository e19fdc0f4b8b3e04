-- ===== src/Cli/Artifact/Termination.antt =====
-- The outer loop of `resolve_runtime_libraries_with` ends: a file is queued once for each new name.
use mathlib.Core.Option
use ohos_rs.Common.{
  ℕ, zero, suc, ◌+◌, ◌≤◌, true, false, some, List, [], ◌∷◌, length, length-append, ◌≡◌, sym, ◌∙◌,
  subst, ap, arith, inl, inr, All,
}
use ohos_rs.Common.Text.{Text, mem_text}
use ohos_rs.Common.Members.{missing, missing-new, missing-nil}
use ohos_rs.Cli.Artifact.{
  Host, Attempt, done, failed, RuntimeLibrary, Paths, Search, resolve_soname, scan_one, scan,
  identity, so_files, start_search, clean_paths, libraries, resolve_runtime_libraries_with,
}
use ohos_rs.Cli.Artifact.Rounds.{
  resolve_soname-cases, resolve_all-keeps, scan_one-cases, scan-nil, scan-failed, scan-done,
  List-cases, Attempt-cases,
}

-- All the names that a file of the host needs.
abbrev pub Lists : Host → List Text → Type 0
Lists host names =
    (p : Text) (needed : List Text)
    → host.needed p ≡ some needed
    → All (λ n. mem_text n names ≡ true) needed

-- What is queued, and the names that no file has asked for.
abbrev measure : List Text → Search → ℕ
measure names s = length s.pending + missing names s.handled

module _ (host : Host) (paths : Paths) (names : List Text) where
  resolve_soname-measure :
      (requester soname : Text) (s s' : Search)
      → mem_text soname names ≡ true
      → mem_text soname s.handled ≡ false
      → resolve_soname host paths requester soname (record s { handled = soname ∷ s.handled })
        ≡ done s'
      → measure names s' ≤ measure names s
  resolve_soname-measure requester soname s s' known new e =
      elim (resolve_soname-cases host paths requester soname
        (record s { handled = soname ∷ s.handled }) s' e) [
          | inl (source, c, q) ↦
              subst (λ t. measure names t ≤ measure names s) (sym q)
                (omega (
                  arith,
                  missing-new names s.handled soname known new,
                  length-append s.pending (source ∷ []),
                ))
          | inr (p, c, q) ↦
              subst (λ t. measure names t ≤ measure names s) (sym q)
                (omega (arith, missing-new names s.handled soname known new))
        ]

  scan_one-measure :
      (requester : Text) (s s' : Search)
      → Lists host names
      → scan_one host paths requester s ≡ done s'
      → measure names s' ≤ measure names s
  scan_one-measure requester s s' lists e = elim (scan_one-cases host paths requester s s' e) [
    | inl (old, q) ↦ subst (λ t. measure names t ≤ measure names s) (sym q) (omega arith)
    | inr (needed, en, q) ↦
        resolve_all-keeps host paths requester (λ t. measure names t ≤ measure names s)
          (λ n. mem_text n names ≡ true)
          (λ soname t t' known new et b.
            omega (arith, b, resolve_soname-measure requester soname t t' known new et))
          needed (record s { scanned = identity host requester ∷ s.scanned }) s'
          (lists requester needed en) q (omega arith)
  ]

  scan-ends :
      (fuel : ℕ) (s : Search)
      → Lists host names
      → measure names s ≤ fuel
      → (r : Attempt Search) × (scan fuel host paths s ≡ some r)
  scan-ends zero s lists b = elim (List-cases s.pending) [
    | inl empty ↦ (done s, scan-nil host paths zero s empty)
    | inr (requester, rest, q) ↦ absurd (omega (arith, ap length q))
  ]
  scan-ends (suc fuel) s lists b = elim (List-cases s.pending) [
    | inl empty ↦ (done s, scan-nil host paths (suc fuel) s empty)
    | inr (requester, rest, q) ↦
        elim (Attempt-cases (scan_one host paths requester (record s { pending = rest }))) [
          | inr (f, ef) ↦ (failed f, scan-failed host paths fuel s requester rest f q ef)
          | inl (t, et) ↦
              let (r, er) = scan-ends fuel t lists (
                omega (
                  arith,
                  ap length q,
                  scan_one-measure requester (record s { pending = rest }) t lists et,
                )) in
              (r, scan-done host paths fuel s t requester rest q et ∙ er)
        ]
  ]

length-so_files : (roots : List Text) → length (so_files roots) ≤ length roots
unfolding so_files
length-so_files [] = omega arith
length-so_files (p ∷ ps) = ground (arith, length-so_files ps)

-- As many rounds as there are artifacts and names suffice: the search then returns, with the libraries
-- or with an error. The names have to be all that any file needs.
pub enough_fuel :
    (host : Host) (roots : List Text) (paths : Paths) (names : List Text)
    → Lists host names
    → (r : Attempt (List RuntimeLibrary)) × (resolve_runtime_libraries_with
          (length roots + length names)
          host
          roots
          paths
        ≡ some r)
unfolding resolve_runtime_libraries_with start_search
enough_fuel host roots paths names lists =
    let (r, e) =
      scan-ends host (clean_paths host paths) names (length roots + length names)
        (start_search host roots) lists (omega (arith, missing-nil names, length-so_files roots)) in
    (libraries r, ap (Option.map libraries) e)
