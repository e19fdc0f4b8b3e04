-- ===== src/Cli/Artifact/Closure.antt =====
-- The libraries that `resolve_runtime_libraries_with` returns.
use mathlib.Core.Option
use ohos_rs.Common.{
  ℕ, true, Option, none, some, List, [], ◌∷◌, ◌≡◌, refl, subst, ◌⊎◌, inl, inr, All, map,
}
use ohos_rs.Common.Text.{Text, mem_text}
use ohos_rs.Common.Members.{IsDistinct}
use ohos_rs.Cli.Artifact.{
  Host, Attempt, done, failed, RuntimeLibrary, Paths, Search, scan, identity, so_files,
  start_search, clean_paths, libraries, resolve_runtime_libraries_with,
}
use ohos_rs.Cli.Artifact.Rounds.{scan-keeps}
use ohos_rs.Cli.Artifact.Provided.{soname_of, source_of, IsFound, Provided, Sorted, scan_one-Sorted}
use ohos_rs.Cli.Artifact.Reading.{
  All-map, All-members, IsRead, AllRead, Queued, scan_one-AllRead, scan_one-Queued,
}

libraries-done :
    (o : Option (Attempt Search)) (libs : List RuntimeLibrary)
    → Option.map libraries o ≡ some (done libs)
    → (s : Search) × (o ≡ some (done s)) × (s.resolved ≡ libs)
unfolding libraries
libraries-done none libs e = absurd (cc)
libraries-done (some (failed f)) libs e = absurd (cc)
libraries-done (some (done s)) libs e = (s, refl, cc)

not_waiting : (p : Text) (ps : List Text) → ps ≡ [] → ¬ (mem_text p ps ≡ true)
unfolding mem_text
not_waiting p [] e m = cc
not_waiting p (q ∷ ps) e m = cc

-- Each of the paths was read, under its own name or under another one of the same file, and all that
-- it needs is among the libraries or belongs to the system.
pub AllSupplied : Host → Paths → List RuntimeLibrary → List Text → Type 0
AllSupplied host paths libs ps =
    All (λ p. IsRead host paths (Provided host paths libs) (identity host p)) ps

module _ (host : Host) (paths : Paths) (roots : List Text) where
  Kept : Search → Type 0
  Kept s = Sorted host paths s × AllRead host paths s × Queued host paths roots s

  scan-Kept :
      (fuel : ℕ) (s s' : Search)
      → scan fuel host paths s ≡ some (done s')
      → Kept s
      → Kept s' × (s'.pending ≡ [])
  unfolding Kept Sorted AllRead
  scan-Kept = scan-keeps host paths Kept (λ requester rest s s' ep e kept. (
    scan_one-Sorted host paths requester (record s { pending = rest }) s' e kept.0,
    scan_one-AllRead host paths requester (record s { pending = rest }) s' e kept.1,
    scan_one-Queued host paths roots requester rest s s' ep e kept.2,
  ))

  supplied :
      (s : Search) (p : Text)
      → Kept s
      → s.pending ≡ []
      → (mem_text p roots ≡ true) ⊎ (mem_text p (map source_of s.resolved) ≡ true)
      → IsRead host paths (Provided host paths s.resolved) (identity host p)
  unfolding Kept Sorted AllRead Queued IsRead mem_text
  supplied s p (sorted, read, queued) empty known = elim (queued p known) [
    | inl waits ↦ absurd (not_waiting p s.pending empty waits)
    | inr scanned ↦
        let (q, names, eq, en, handled) = read (identity host p) scanned in
        (q, names, eq, en, All-map _ _ sorted.0 names handled)
  ]

  Kept-start_search : Kept (record { pending = roots; scanned = []; handled = []; resolved = [] })
  unfolding Kept Sorted AllRead Queued mem_text
  Kept-start_search = (
    (λ n h. absurd (cc), λ n h. absurd (cc), tt, tt),
    λ i m. absurd (cc),
    λ p known. elim known [ inl m ↦ inl m | inr m ↦ absurd (cc) ],
  )

-- The libraries that are returned are closed: each artifact and each library was read, under its own
-- name or another one of the same file, and each name that it needs is that of a library or is found
-- in a search path of the system. No two libraries have the same name, and each is a file, in some
-- directory, with the name that was asked for.
pub libraries-AllSupplied :
    (fuel : ℕ) (host : Host) (roots : List Text) (paths : Paths) (libs : List RuntimeLibrary)
    → resolve_runtime_libraries_with fuel host roots paths ≡ some (done libs)
    → AllSupplied host (clean_paths host paths) libs (so_files roots)
      × AllSupplied host (clean_paths host paths) libs (map source_of libs)
      × IsDistinct (map soname_of libs)
      × All (IsFound host) libs
unfolding resolve_runtime_libraries_with start_search AllSupplied Kept Sorted
libraries-AllSupplied fuel host roots paths libs e =
    let (s, es, el) =
      libraries-done (scan fuel host (clean_paths host paths) (start_search host roots)) libs e in
    let (kept, empty) =
      scan-Kept host (clean_paths host paths) (so_files roots) fuel (start_search host roots) s es
        (Kept-start_search host (clean_paths host paths) (so_files roots)) in
    subst
      (λ ls.
        AllSupplied host (clean_paths host paths) ls (so_files roots)
        × AllSupplied host (clean_paths host paths) ls (map source_of ls)
        × IsDistinct (map soname_of ls)
        × All (IsFound host) ls)
      el
      (
        All-members _ (so_files roots)
            (λ p m. supplied host (clean_paths host paths) (so_files roots) s p kept empty (inl m)),
        All-members _ (map source_of s.resolved)
            (λ p m. supplied host (clean_paths host paths) (so_files roots) s p kept empty (inr m)),
        kept.0.2,
        kept.0.3,
      )
