-- ===== src/Cli/Artifact/Provided.antt =====
-- The names that a search has handled, and the libraries that it has found for them.
use ohos_rs.Common.{
  true, false, some, List, [], ◌∷◌, ◌++◌, ◌≡◌, sym, ◌∙◌, subst, ap, arith, ◌⊎◌, inl, inr, All,
  Option-cases, map,
}
use ohos_rs.Common.Text.{Text, mem_text}
use ohos_rs.Common.Members.{
  IsDistinct, IsDistinct-concat, mem-cons-cases, mem-cons-old, mem-cons-new, mem-concat-cases,
  mem-concat-old, mem-concat-new, map-concat, All-concat,
}
use ohos_rs.Cli.Artifact.{
  Host, done, RuntimeLibrary, Paths, Search, find_library, find_in, candidate, resolve_soname,
  scan_one,
}
use ohos_rs.Cli.Path.{join_path}
use ohos_rs.Cli.Artifact.Rounds.{resolve_soname-cases, resolve_all-keeps, scan_one-cases}

abbrev pub soname_of : RuntimeLibrary → Text
soname_of l = l.soname

abbrev pub source_of : RuntimeLibrary → Text
source_of l = l.source

some_injective : {a b : Text} → some a ≡ some b → a ≡ b
some_injective e = cc

pub All-unit : {A : Type 0} (xs : List A) → All (λ x. Unit {0}) xs
All-unit [] = tt
All-unit (x ∷ xs) = (tt, All-unit xs)

module _ (host : Host) where
  -- A library that is a file of the host with the name that was asked for.
  unfoldable pub IsFound : RuntimeLibrary → Type 0
  IsFound l = (d : Text) × (l.source ≡ join_path d l.soname) × (host.is_file l.source ≡ true)

  find_library-IsFound :
      (d n p : Text) → find_library host d n ≡ some p → IsFound (record { source = p; soname = n })
  unfolding find_library IsFound
  find_library-IsFound d n p e = (d, ground arith, ground arith)

  find_in-IsFound :
      (ds : List Text) (n p : Text)
      → find_in host ds n ≡ some p
      → IsFound (record { source = p; soname = n })
  unfolding find_in
  find_in-IsFound [] n p e = absurd (cc)
  find_in-IsFound (d ∷ ds) n p e = elim (Option-cases (find_library host d n)) [
    | inl nowhere ↦ find_in-IsFound ds n p (ground arith)
    | inr (q, eq) ↦ find_library-IsFound d n p (ground arith)
  ]

  candidate-IsFound :
      (paths : Paths) (requester n p : Text)
      → candidate host paths requester n ≡ some p
      → IsFound (record { source = p; soname = n })
  unfolding candidate
  candidate-IsFound paths requester n p e = elim (Option-cases (host.parent requester)) [
    | inl rootless ↦ elim (Option-cases (find_in host paths.dependency n)) [
      | inl nowhere ↦ find_in-IsFound paths.runtime n p (ground arith)
      | inr (q, eq) ↦ find_in-IsFound paths.dependency n p (ground arith)
    ]
    | inr (d, ed) ↦ elim (Option-cases (find_in host (d ∷ paths.dependency) n)) [
      | inl nowhere ↦ find_in-IsFound paths.runtime n p (ground arith)
      | inr (q, eq) ↦ find_in-IsFound (d ∷ paths.dependency) n p (ground arith)
    ]
  ]

module _ (host : Host) (paths : Paths) where
  -- A name that one of the libraries has, or a library of the system.
  unfoldable pub Provided : List RuntimeLibrary → Text → Type 0
  Provided ls n =
      (mem_text n (map soname_of ls) ≡ true) ⊎ ((p : Text) × (find_in host paths.system n ≡ some p))

  -- The names that were handled are provided, and the libraries have different names.
  unfoldable pub Sorted : Search → Type 0
  Sorted s =
      ((n : Text) → mem_text n s.handled ≡ true → Provided s.resolved n)
      × ((n : Text) → mem_text n (map soname_of s.resolved) ≡ true → mem_text n s.handled ≡ true)
      × IsDistinct (map soname_of s.resolved)
      × All (IsFound host) s.resolved

  Provided-more :
      (ls : List RuntimeLibrary) (l : RuntimeLibrary) (n : Text)
      → Provided ls n
      → Provided (ls ++ l ∷ []) n
  unfolding Provided
  Provided-more ls l n (inl m) = inl (mem-concat-old soname_of ls l n m)
  Provided-more ls l n (inr sys) = inr sys

  Sorted-found :
      (soname source : Text) (s : Search)
      → mem_text soname s.handled ≡ false
      → IsFound host (record { source = source; soname = soname })
      → Sorted s
      → Sorted (record s {
        handled = soname ∷ s.handled;
        pending = s.pending ++ source ∷ [];
        resolved = s.resolved ++ record { source = source; soname = soname } ∷ [];
      })
  unfolding Sorted Provided
  Sorted-found soname source s new file (provided, handled, distinct, found) = (
    λ n h. elim (mem-cons-cases soname s.handled n h) [
      | inl e ↦ inl (
          subst (λ t. mem_text t (map soname_of (s.resolved ++ l ∷ [])) ≡ true) e
            (mem-concat-new soname_of s.resolved l))
      | inr old ↦ Provided-more s.resolved l n (provided n old)
    ],
    λ n h. elim (mem-concat-cases soname_of s.resolved l n h) [
      | inl old ↦ mem-cons-old soname s.handled n (handled n old)
      | inr e ↦
          subst (λ t. mem_text t (soname ∷ s.handled) ≡ true) e (mem-cons-new soname s.handled)
    ],
    subst IsDistinct (sym (map-concat soname_of s.resolved l))
        (IsDistinct-concat soname (map soname_of s.resolved) fresh distinct),
    All-concat (IsFound host) s.resolved l found file,
  )
    where
      l : RuntimeLibrary
      l = record { source = source; soname = soname }

      fresh : mem_text soname (map soname_of s.resolved) ≡ false
      fresh = ground (arith, handled soname)

  Sorted-system :
      (soname p : Text) (s : Search)
      → find_in host paths.system soname ≡ some p
      → Sorted s
      → Sorted (record s { handled = soname ∷ s.handled })
  unfolding Sorted Provided
  Sorted-system soname p s sys (provided, handled, distinct, found) = (
    λ n h. elim (mem-cons-cases soname s.handled n h) [
      | inl e ↦ inr (p, ap (find_in host paths.system) (sym e) ∙ sys)
      | inr old ↦ provided n old
    ],
    λ n h. mem-cons-old soname s.handled n (handled n h),
    distinct,
    found,
  )

  resolve_soname-Sorted :
      (requester soname : Text) (s s' : Search)
      → mem_text soname s.handled ≡ false
      → resolve_soname host paths requester soname (record s { handled = soname ∷ s.handled })
        ≡ done s'
      → Sorted s
      → Sorted s'
  resolve_soname-Sorted requester soname s s' new e sorted =
      elim (resolve_soname-cases host paths requester soname
        (record s { handled = soname ∷ s.handled }) s' e) [
          | inl (source, c, q) ↦ subst Sorted (sym q) (
              Sorted-found soname source s new
                (candidate-IsFound host paths requester soname source c) sorted)
          | inr (p, c, q) ↦ subst Sorted (sym q) (Sorted-system soname p s c sorted)
        ]

  pub scan_one-Sorted :
      (requester : Text) (s s' : Search)
      → scan_one host paths requester s ≡ done s'
      → Sorted s
      → Sorted s'
  unfolding Sorted
  scan_one-Sorted requester s s' e sorted = elim (scan_one-cases host paths requester s s' e) [
    | inl (old, q) ↦ subst Sorted (sym q) sorted
    | inr (names, en, q) ↦
        resolve_all-keeps host paths requester Sorted (λ n. Unit)
          (λ n t t' u new et. resolve_soname-Sorted requester n t t' new et) names _ s'
          (All-unit names) q sorted
  ]
