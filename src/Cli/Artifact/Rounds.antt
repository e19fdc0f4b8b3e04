-- ===== src/Cli/Artifact/Rounds.antt =====
-- What one name and one file do to a search, and what every round keeps.
use ohos_rs.Common.{
  ℕ, zero, suc, true, false, Option, some, List, [], ◌∷◌, ◌++◌, ◌≡◌, ◌≢◌, refl, sym, ◌∙◌, subst,
  arith, ◌⊎◌, inl, inr, All, Bool-cases, Option-cases,
}
use ohos_rs.Common.Text.{Text, mem_text}
use ohos_rs.Cli.Artifact.{
  Host, Failure, Attempt, done, failed, Paths, Search, candidate, find_in, resolve_soname,
  resolve_all, scan_one, scan, identity,
}

-- A resolved name is queued with its file, and a name of the system changes nothing.
pub resolve_soname-cases :
    (host : Host) (paths : Paths) (requester soname : Text) (s s' : Search)
    → resolve_soname host paths requester soname s ≡ done s'
    → ((source : Text) × (candidate host paths requester soname ≡ some source)
        × (s' ≡ record s {
          pending = s.pending ++ source ∷ [];
          resolved = s.resolved ++ record { source = source; soname = soname } ∷ [];
        }))
      ⊎ ((p : Text) × (find_in host paths.system soname ≡ some p) × (s' ≡ s))
unfolding resolve_soname
resolve_soname-cases host paths requester soname s s' e = ground arith

pub Attempt-cases :
    {A : Type 0} (a : Attempt A) → ((x : A) × (a ≡ done x)) ⊎ ((f : Failure) × (a ≡ failed f))
Attempt-cases (done x) = inl (x, refl)
Attempt-cases (failed f) = inr (f, refl)

pub done_injective : {A : Type 0} {x y : A} → done x ≡ done y → x ≡ y
done_injective e = cc

module _ (host : Host) (paths : Paths) (requester : Text) where
  pub resolve_all-old :
      (n : Text) (names : List Text) (s : Search)
      → mem_text n s.handled ≡ true
      → resolve_all host paths requester (n ∷ names) s ≡ resolve_all host paths requester names s
  unfolding resolve_all
  resolve_all-old n names s old = rw (old, resolve_all) refl

  pub resolve_all-new :
      (n : Text) (names : List Text) (s s' : Search)
      → mem_text n s.handled ≡ false
      → resolve_all host paths requester (n ∷ names) s ≡ done s'
      → (t : Search) × (resolve_soname host paths requester n (record s { handled = n ∷ s.handled })
          ≡ done t)
        × (resolve_all host paths requester names t ≡ done s')
  unfolding resolve_all
  resolve_all-new n names s s' new e =
      elim (Attempt-cases
        (resolve_soname host paths requester n (record s { handled = n ∷ s.handled }))) [
          | inl (t, et) ↦ (t, et, ground arith)
          | inr (f, ef) ↦ absurd (ground arith)
        ]

  -- What every new name keeps, all the names keep.
  pub resolve_all-keeps :
      (P : Search → Type 0) (Q : Text → Type 0)
      → ((soname : Text) (s s' : Search)
          → Q soname
          → mem_text soname s.handled ≡ false
          → resolve_soname host paths requester soname (record s { handled = soname ∷ s.handled })
            ≡ done s'
          → P s
          → P s')
      → (names : List Text) (s s' : Search) → All Q names
      → resolve_all host paths requester names s ≡ done s'
      → P s
      → P s'
  unfolding resolve_all
  resolve_all-keeps P Q keeps [] s s' q e p = subst P (done_injective e) p
  resolve_all-keeps P Q keeps (n ∷ names) s s' q e p = elim (Bool-cases (mem_text n s.handled)) [
    | inl old ↦
        resolve_all-keeps P Q keeps names s s' q.1 (sym (resolve_all-old n names s old) ∙ e) p
    | inr new ↦
        let (t, et, rest) = resolve_all-new n names s s' new e in
        resolve_all-keeps P Q keeps names t s' q.1 rest (keeps n s t q.0 new et p)
  ]

-- A round that succeeds either drops a file that was scanned before, or reads what the file needs.
pub scan_one-cases :
    (host : Host) (paths : Paths) (requester : Text) (s s' : Search)
    → scan_one host paths requester s ≡ done s'
    → ((mem_text (identity host requester) s.scanned ≡ true) × (s' ≡ s))
      ⊎ ((names : List Text) × (host.needed requester ≡ some names)
          × (resolve_all host paths requester names
                (record s { scanned = identity host requester ∷ s.scanned })
              ≡ done s'))
unfolding scan_one
scan_one-cases host paths requester s s' e =
    elim (Bool-cases (mem_text (identity host requester) s.scanned)) [
      | inl old ↦ inl (old, ground arith)
      | inr new ↦ elim (Option-cases (host.needed requester)) [
        | inl unread ↦ absurd (ground arith)
        | inr (names, en) ↦ inr (names, en, ground arith)
      ]
    ]

pub List-cases :
    {A : Type 0} (xs : List A) → (xs ≡ []) ⊎ ((x : A) × (rest : List A) × (xs ≡ x ∷ rest))
List-cases [] = inl refl
List-cases (x ∷ xs) = inr (x, xs, refl)

some_done_injective :
    {s s' : Search} → ◌≡◌ {A = Option (Attempt Search)} (some (done s)) (some (done s')) → s ≡ s'
some_done_injective e = cc

no_failure :
    {f : Failure} {s : Search} → ◌≢◌ {A = Option (Attempt Search)} (some (failed f)) (some (done s))
no_failure e = cc

module _ (host : Host) (paths : Paths) where
  pub scan-nil : (fuel : ℕ) (s : Search) → s.pending ≡ [] → scan fuel host paths s ≡ some (done s)
  unfolding scan
  scan-nil zero s e = ground arith
  scan-nil (suc fuel) s e = ground arith

  pub scan-failed :
      (fuel : ℕ) (s : Search) (requester : Text) (rest : List Text) (f : Failure)
      → s.pending ≡ requester ∷ rest
      → scan_one host paths requester (record s { pending = rest }) ≡ failed f
      → scan (suc fuel) host paths s ≡ some (failed f)
  unfolding scan
  scan-failed fuel s requester rest f e e' = ground arith

  pub scan-done :
      (fuel : ℕ) (s s' : Search) (requester : Text) (rest : List Text)
      → s.pending ≡ requester ∷ rest
      → scan_one host paths requester (record s { pending = rest }) ≡ done s'
      → scan (suc fuel) host paths s ≡ scan fuel host paths s'
  unfolding scan
  scan-done fuel s s' requester rest e e' = ground arith

  stop :
      (P : Search → Type 0) (fuel : ℕ) (s s' : Search)
      → s.pending ≡ []
      → scan fuel host paths s ≡ some (done s')
      → P s
      → P s' × (s'.pending ≡ [])
  stop P fuel s s' empty e p =
      subst (λ t. P t × (t.pending ≡ [])) (some_done_injective (sym (scan-nil fuel s empty) ∙ e))
        (p, empty)

  -- What every round keeps, the search keeps; at its end the queue is empty.
  pub scan-keeps :
      (P : Search → Type 0)
      → ((requester : Text) (rest : List Text) (s s' : Search)
          → s.pending ≡ requester ∷ rest
          → scan_one host paths requester (record s { pending = rest }) ≡ done s'
          → P s
          → P s')
      → (fuel : ℕ) (s s' : Search) → scan fuel host paths s ≡ some (done s')
      → P s
      → P s' × (s'.pending ≡ [])
  scan-keeps P keeps zero s s' e p = elim (List-cases s.pending) [
    | inl empty ↦ stop P zero s s' empty e p
    | inr (requester, rest, q) ↦ absurd (unfold scan in ground arith)
  ]
  scan-keeps P keeps (suc fuel) s s' e p = elim (List-cases s.pending) [
    | inl empty ↦ stop P (suc fuel) s s' empty e p
    | inr (requester, rest, q) ↦
        elim (Attempt-cases (scan_one host paths requester (record s { pending = rest }))) [
          | inl (t, et) ↦
              scan-keeps P keeps fuel t s' (sym (scan-done fuel s t requester rest q et) ∙ e)
                (keeps requester rest s t q et p)
          | inr (f, ef) ↦ absurd (no_failure (sym (scan-failed fuel s requester rest f q ef) ∙ e))
        ]
  ]
