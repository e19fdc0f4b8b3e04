-- ===== src/Cli/Artifact/Reading.antt =====
-- The files that a search has read, and the queue of those that it has still to read.
use ohos_rs.Common.{
  true, some, List, [], ◌∷◌, ◌++◌, ◌≡◌, sym, ◌∙◌, subst, ap, arith, ◌⊎◌, inl, inr, All, Bool-cases,
  map,
}
use ohos_rs.Common.Text.{Text, mem_text}
use ohos_rs.Common.Members.{
  mem-append, mem-cons-cases, mem-cons-old, mem-cons-new, mem-concat-cases,
}
use ohos_rs.Cli.Artifact.{
  Host, done, Paths, Search, resolve_soname, resolve_all, scan_one, identity,
}
use ohos_rs.Cli.Artifact.Rounds.{
  resolve_soname-cases, resolve_all-keeps, resolve_all-old, resolve_all-new, scan_one-cases,
  done_injective,
}
use ohos_rs.Cli.Artifact.Provided.{source_of, All-unit}

pub All-map :
    {A : Type 0} (P Q : A → Type 0) → ((x : A) → P x → Q x) → (xs : List A) → All P xs → All Q xs
All-map P Q f [] a = tt
All-map P Q f (x ∷ xs) a = (f x a.0, All-map P Q f xs a.1)

pub All-members :
    (P : Text → Type 0) (xs : List Text) → ((x : Text) → mem_text x xs ≡ true → P x) → All P xs
All-members P [] f = tt
All-members P (x ∷ xs) f =
    (f x (mem-cons-new x xs), All-members P xs (λ y m. f y (mem-cons-old x xs y m)))

module _ (host : Host) (paths : Paths) (requester : Text) where
  resolve_soname-handled :
      (n : Text) (s t : Search)
      → resolve_soname host paths requester n (record s { handled = n ∷ s.handled }) ≡ done t
      → (t.handled ≡ n ∷ s.handled) × (t.scanned ≡ s.scanned)
  resolve_soname-handled n s t e =
      elim (resolve_soname-cases host paths requester n (record s { handled = n ∷ s.handled }) t
        e) [
          | inl (source, c, q) ↦ (ap (λ u. u.handled) q, ap (λ u. u.scanned) q)
          | inr (p, c, q) ↦ (ap (λ u. u.handled) q, ap (λ u. u.scanned) q)
        ]

  -- All the names are handled behind the loop, those from before included.
  resolve_all-handled :
      (names : List Text) (s s' : Search)
      → resolve_all host paths requester names s ≡ done s'
      → ((n : Text) → mem_text n s.handled ≡ true → mem_text n s'.handled ≡ true)
        × All (λ n. mem_text n s'.handled ≡ true) names
        × (s'.scanned ≡ s.scanned)
  unfolding resolve_all
  resolve_all-handled [] s s' e = (
    λ n h. subst (λ t. mem_text n t.handled ≡ true) (done_injective e) h,
    tt,
    ap (λ t. t.scanned) (sym (done_injective e)),
  )
  resolve_all-handled (n ∷ names) s s' e = elim (Bool-cases (mem_text n s.handled)) [
    | inl old ↦
        let (more, all, same) =
          resolve_all-handled names s s'
            (sym (resolve_all-old host paths requester n names s old) ∙ e) in
        (more, (more n old, all), same)
    | inr new ↦
        let (t, et, rest) = resolve_all-new host paths requester n names s s' new e in
        let (more, all, same) = resolve_all-handled names t s' rest in
        let (eh, es) = resolve_soname-handled n s t et in
        (
          λ k h.
              more k (subst (λ hs. mem_text k hs ≡ true) (sym eh) (mem-cons-old n s.handled k h)),
          (more n (subst (λ hs. mem_text n hs ≡ true) (sym eh) (mem-cons-new n s.handled)), all),
          same ∙ es,
        )
  ]

module _ (host : Host) (paths : Paths) where
  -- Some file with this identity was read, and all that it needs has the property.
  unfoldable pub IsRead : (Text → Type 0) → Text → Type 0
  IsRead P i =
      (q : Text) × (names : List Text) × (identity host q ≡ i)
      × (host.needed q ≡ some names)
      × All P names

  -- What was scanned was read.
  unfoldable pub AllRead : Search → Type 0
  AllRead s = (i : Text) → mem_text i s.scanned ≡ true → IsRead (λ n. mem_text n s.handled ≡ true) i

  pub scan_one-AllRead :
      (requester : Text) (s s' : Search)
      → scan_one host paths requester s ≡ done s'
      → AllRead s
      → AllRead s'
  unfolding AllRead IsRead
  scan_one-AllRead requester s s' e read = elim (scan_one-cases host paths requester s s' e) [
    | inl (old, q) ↦ subst AllRead (sym q) read
    | inr (names, en, q) ↦
        let (more, all, same) = resolve_all-handled host paths requester names _ s' q in
        λ i m.
          elim (mem-cons-cases (identity host requester) s.scanned i
            (subst (λ is. mem_text i is ≡ true) same m)) [
              | inl e ↦ (requester, names, e, en, all)
              | inr old ↦
                  let (p, ns, ep, ens, a) = read i old in (p, ns, ep, ens, All-map _ _ more ns a)
            ]
  ]

  -- An artifact or a library that was found waits in the queue or was scanned.
  unfoldable pub Queued : List Text → Search → Type 0
  Queued roots s =
      (p : Text)
      → (mem_text p roots ≡ true) ⊎ (mem_text p (map source_of s.resolved) ≡ true)
      → (mem_text p s.pending ≡ true) ⊎ (mem_text (identity host p) s.scanned ≡ true)

  resolve_soname-Queued :
      (roots : List Text) (requester soname : Text) (s s' : Search)
      → resolve_soname host paths requester soname (record s { handled = soname ∷ s.handled })
        ≡ done s'
      → Queued roots s
      → Queued roots s'
  unfolding Queued
  resolve_soname-Queued roots requester soname s s' e queued =
      elim (resolve_soname-cases host paths requester soname
        (record s { handled = soname ∷ s.handled }) s' e) [
          | inl (source, c, q) ↦ subst (Queued roots) (sym q) (λ p. grown source p)
          | inr (p, c, q) ↦ subst (Queued roots) (sym q) queued
        ]
    where
      waiting :
          (source p : Text)
          → (mem_text p s.pending ≡ true) ⊎ (mem_text (identity host p) s.scanned ≡ true)
          → (mem_text p (s.pending ++ source ∷ []) ≡ true)
            ⊎ (mem_text (identity host p) s.scanned ≡ true)
      waiting source p (inl m) = inl (ground (arith, mem-append p s.pending (source ∷ [])))
      waiting source p (inr m) = inr m

      grown :
          (source p : Text)
          → (mem_text p roots ≡ true)
            ⊎ (mem_text p
                  (map source_of (s.resolved ++ record { source = source; soname = soname } ∷ []))
                ≡ true)
          → (mem_text p (s.pending ++ source ∷ []) ≡ true)
            ⊎ (mem_text (identity host p) s.scanned ≡ true)
      grown source p (inl root) = waiting source p (queued p (inl root))
      grown source p (inr m) =
          elim (mem-concat-cases source_of s.resolved (record { source = source; soname = soname })
            p m) [
              | inl old ↦ waiting source p (queued p (inr old))
              | inr e ↦ inl (
                  subst (λ t. mem_text t (s.pending ++ source ∷ []) ≡ true) e
                    (ground
                      (arith, mem-append source s.pending (source ∷ []), mem-cons-new source [])))
            ]

  pub scan_one-Queued :
      (roots : List Text) (requester : Text) (rest : List Text) (s s' : Search)
      → s.pending ≡ requester ∷ rest
      → scan_one host paths requester (record s { pending = rest }) ≡ done s'
      → Queued roots s
      → Queued roots s'
  unfolding Queued
  scan_one-Queued roots requester rest s s' ep e queued =
      elim (scan_one-cases host paths requester (record s { pending = rest }) s' e) [
        | inl (old, q) ↦
            subst (Queued roots) (sym q) (λ p k. popped s.scanned (λ i m. m) old p (queued p k))
        | inr (names, en, q) ↦
            resolve_all-keeps host paths requester (Queued roots) (λ n. Unit)
              (λ n t t' u new et. resolve_soname-Queued roots requester n t t' et) names _ s'
              (All-unit names) q
              (λ p k.
                popped (identity host requester ∷ s.scanned) (λ i m. mem-cons-old _ s.scanned i m)
                  (mem-cons-new _ s.scanned) p (queued p k))
      ]
    where
      popped :
          (scanned : List Text)
          → ((i : Text) → mem_text i s.scanned ≡ true → mem_text i scanned ≡ true)
          → mem_text (identity host requester) scanned ≡ true
          → (p : Text)
          → (mem_text p s.pending ≡ true) ⊎ (mem_text (identity host p) s.scanned ≡ true)
          → (mem_text p rest ≡ true) ⊎ (mem_text (identity host p) scanned ≡ true)
      popped scanned more this p (inr m) = inr (more _ m)
      popped scanned more this p (inl m) =
          elim (mem-cons-cases requester rest p (subst (λ ps. mem_text p ps ≡ true) ep m)) [
            | inl e ↦ inr (subst (λ t. mem_text (identity host t) scanned ≡ true) e this)
            | inr k ↦ inl k
          ]
