-- ===== src/Iterator/Completed.antt =====
-- What JavaScript sees of a generator.
use ohos_rs.Common.{ℕ, Bool, true, false, Option, none, some, List, [], ◌∷◌, ◌≡◌, refl, arith}
use ohos_rs.Iterator.{
  Generator, Site, Instance, Outcome, Thrown, set_generator_value, generator_next, generator_return,
  generator_throw,
}

module _ {G Y N R : Type 0} (site : Site Y N R) (g : Generator G Y N R) where
  -- The outcomes of calls of `next`, in order, and the instance afterwards.
  unfoldable pub call_next : List (Option ℕ) → Instance G → List Outcome × Instance G
  unfolding generator_next
  call_next [] i = ([], i)
  call_next (arg ∷ args) i =
      let (o, j) = generator_next site g arg i in let (os, k) = call_next args j in (o ∷ os, k)

  abbrev pub done_outcome : Outcome
  done_outcome = record { pending = none; result = some (record { value = none; done = true }) }

  abbrev pub all_done : List (Option ℕ) → List Outcome
  all_done [] = []
  all_done (_ ∷ args) = done_outcome ∷ all_done args

  generator_next-completed :
      (arg : Option ℕ) (i : Instance G)
      → i.completed ≡ true
      → generator_next site g arg i ≡ (done_outcome, i)
  unfolding generator_next
  generator_next-completed arg i h = rw h refl

  call_next-completed :
      (args : List (Option ℕ)) (i : Instance G)
      → i.completed ≡ true
      → call_next args i ≡ (all_done args, i)
  unfolding call_next
  call_next-completed [] i h = refl
  call_next-completed (arg ∷ args) i h =
      rw (generator_next-completed arg i h, call_next-completed args i h) refl

  generator_return-completed :
      (arg : Option ℕ) (i : Instance G)
      → (generator_return site g arg i).0.pending ≡ none
      → (generator_return site g arg i).1.completed ≡ true
  unfolding generator_return
  generator_return-completed arg i h = ground (arith, h)

  -- A call of `next`, or of `return`, with its argument.
  unfoldable pub call : Bool × Option ℕ → Instance G → Outcome × Instance G
  unfolding generator_next generator_return
  call (true, arg) i = generator_next site g arg i
  call (false, arg) i = generator_return site g arg i

  unfoldable pub call_all : List (Bool × Option ℕ) → Instance G → List Outcome × Instance G
  unfolding call
  call_all [] i = ([], i)
  call_all (c ∷ cs) i = let (o, j) = call c i in let (os, k) = call_all cs j in (o ∷ os, k)

  -- Every `next` among the calls reports the end.
  abbrev pub ReportEnd : List (Bool × Option ℕ) → List Outcome → Type 0
  ReportEnd [] [] = Unit
  ReportEnd ((true, _) ∷ cs) (o ∷ os) = (o ≡ done_outcome) × ReportEnd cs os
  ReportEnd ((false, _) ∷ cs) (o ∷ os) = ReportEnd cs os
  ReportEnd _ _ = ⊥

  generator_return-keeps :
      (arg : Option ℕ) (i : Instance G)
      → i.completed ≡ true
      → (generator_return site g arg i).1.completed ≡ true
  unfolding generator_return
  generator_return-keeps arg i h = ground (arith, h)

  call_all-ReportEnd :
      (cs : List (Bool × Option ℕ)) (i : Instance G)
      → i.completed ≡ true
      → ReportEnd cs (call_all cs i).0 × ((call_all cs i).1.completed ≡ true)
  unfolding call_all
  call_all-ReportEnd [] i h = (tt, h)
  call_all-ReportEnd ((true, arg) ∷ cs) i h =
      let (ends, still) = call_all-ReportEnd cs i h in
      rw (generator_next-completed arg i h) ((refl, ends), still)
  call_all-ReportEnd ((false, arg) ∷ cs) i h =
      call_all-ReportEnd cs (generator_return site g arg i).1 (generator_return-keeps arg i h)

  generator_throw-completed :
      (arg : Option ℕ) (i : Instance G) (v : ℕ)
      → (generator_throw site g arg i).0.pending ≡ some (Thrown.exception v)
      → (generator_throw site g arg i).1.completed ≡ true
  unfolding generator_throw set_generator_value
  generator_throw-completed arg i v h = ground (arith, h)

  -- After a call of `return` that raises nothing, and up to the next call of `throw`, every call of `next`
  -- reports the end, however calls of `next` and of `return` follow each other, also calls of `return` that
  -- raise an error. In a row of calls of `next` the generator is not asked again.
  pub call_all-generator_return :
      (arg : Option ℕ) (args : List (Option ℕ)) (cs : List (Bool × Option ℕ)) (i : Instance G)
      → (generator_return site g arg i).0.pending ≡ none
      → let j = (generator_return site g arg i).1 in
        ReportEnd cs (call_all cs j).0
        × ((call_all cs j).1.completed ≡ true)
        × (call_next args j ≡ (all_done args, j))
  call_all-generator_return arg args cs i h =
      let e = generator_return-completed arg i h in
      let (ends, still) = call_all-ReportEnd cs (generator_return site g arg i).1 e in
      (ends, still, call_next-completed args (generator_return site g arg i).1 e)

  -- After a call of `throw` whose exception the generator throws again, every call of `next` reports the
  -- end, and the generator is not asked again.
  pub call_next-generator_throw :
      (arg : Option ℕ) (args : List (Option ℕ)) (i : Instance G) (v : ℕ)
      → (generator_throw site g arg i).0.pending ≡ some (Thrown.exception v)
      → call_next args (generator_throw site g arg i).1
        ≡ (all_done args, (generator_throw site g arg i).1)
  call_next-generator_throw arg args i v h =
      call_next-completed args (generator_throw site g arg i).1
        (generator_throw-completed arg i v h)
