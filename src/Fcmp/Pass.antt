-- ===== src/Fcmp/Pass.antt =====
-- ConvertFCmpEq::run with the result of FindFCmpEq.
use llvm_tutor.Prelude.{
  ℕ, ◌==◌, ◌≡◌, refl, ap, ◌∙◌, Bool, true, false, not, ◌&&◌, ◌⊎◌, inl, inr, List, [], ◌∷◌, All,
  arith, Bool-cases, ==_iff,
}
use llvm_tutor.Prelude.Containers.{nat_eq, contains}
use llvm_tutor.Ir.{BasicBlock, PreservedAnalyses}
use llvm_tutor.Fcmp.{
  find_fcmp_eq, FcmpBuilder, convert_in_blocks, convert_all, convert_run, convert_pass,
}
use llvm_tutor.Fcmp.Attempt.{IsFormed, IsQuiet}
use llvm_tutor.Fcmp.Correct.{blocks_done}

abbrev pub IsFormedFunction : List BasicBlock → Type 0
IsFormedFunction bs = All (λ b. All IsFormed b.instructions) bs

empty : (xs : List ℕ) → ((k : ℕ) → contains xs k ≡ false) → xs ≡ []
unfolding contains
empty [] h = refl
empty (x ∷ xs) h = absurd (ground (arith, h x, ==_iff x x))

and_not : (b : Bool) → (not b && b) ≡ false
and_not true = refl
and_not false = refl

contains-cons :
    (x : ℕ) (xs : List ℕ) (k : ℕ) (b : Bool)
    → (not (contains xs k) && (not (x == k) && b)) ≡ (not (contains (x ∷ xs) k) && b)
unfolding contains
contains-cons x xs k b = ground arith

module _ (builder : FcmpBuilder) (law : IsQuiet builder) where
  all_gone :
      (xs : List ℕ) (bs : List BasicBlock) (n : ℕ)
      → IsFormedFunction bs
      → (k : ℕ)
      → contains (find_fcmp_eq (convert_all builder xs bs n).blocks) k
        ≡ (not (contains xs k) && contains (find_fcmp_eq bs) k)
  unfolding convert_all
  all_gone [] bs n w k = unfold contains in refl
  all_gone (x ∷ xs) bs n w k =
      let here = blocks_done builder law x bs n w in
      let c = convert_in_blocks builder x bs n in
      let rest = all_gone xs c.now c.next here.formed k in
      rest ∙ rw (here.gone k) (contains-cons x xs k (contains (find_fcmp_eq bs) k))

  all_modified :
      (xs : List ℕ) (bs : List BasicBlock) (n k : ℕ)
      → IsFormedFunction bs
      → contains xs k ≡ true
      → contains (find_fcmp_eq bs) k ≡ true
      → (convert_all builder xs bs n).modified ≡ true
  unfolding convert_all contains
  all_modified [] bs n k w h g = h
  all_modified (x ∷ xs) bs n k w h g =
      let here = blocks_done builder law x bs n w in
      let c = convert_in_blocks builder x bs n in
      elim (Bool-cases (x == k)) [
        | inl e ↦
            let same = (==_iff x k).0 e in
            ground (arith, here.flagged, ap (contains (find_fcmp_eq bs)) same, g)
        | inr e ↦ ground (
          arith,
          all_modified xs c.now c.next k here.formed (ground (arith, h, e))
              (here.gone k ∙ ground (arith, e, g)),
        )
      ]

  not_found :
      (bs : List BasicBlock) (n : ℕ)
      → IsFormedFunction bs
      → (k : ℕ) → (convert_all builder (find_fcmp_eq bs) bs n).modified ≡ false
      → contains (find_fcmp_eq bs) k ≡ false
  not_found bs n w k h = elim (Bool-cases (contains (find_fcmp_eq bs) k)) [
    | inl e ↦ absurd (ground (arith, all_modified (find_fcmp_eq bs) bs n k w e e, h))
    | inr e ↦ e
  ]

  -- After the pass on a function that is not optnone, FindFCmpEq finds nothing, if every comparison
  -- has two operands and the builder inserts no equality comparison.
  pub convert_pass-none_left :
      (bs : List BasicBlock) (n : ℕ)
      → IsFormedFunction bs
      → find_fcmp_eq (convert_pass builder false bs n).0.blocks ≡ []
  unfolding convert_pass convert_run
  convert_pass-none_left bs n w =
      empty _ (λ k. all_gone (find_fcmp_eq bs) bs n w k ∙ and_not (contains (find_fcmp_eq bs) k))

  -- If the pass reports that all analyses are preserved, the function is as it was, and it was
  -- optnone or had no equality comparison, under the same conditions on operands and builder.
  pub convert_pass-preserved :
      (opt_none : Bool) (bs : List BasicBlock) (n : ℕ)
      → IsFormedFunction bs
      → (convert_pass builder opt_none bs n).1 ≡ PreservedAnalyses.all_preserved
      → ((convert_pass builder opt_none bs n).0.blocks ≡ bs)
        × ((opt_none ≡ true) ⊎ (find_fcmp_eq bs ≡ []))
  unfolding convert_pass convert_run
  convert_pass-preserved true bs n w h = (refl, inl refl)
  convert_pass-preserved false bs n w h =
      let none_found = empty (find_fcmp_eq bs) (λ k. not_found bs n w k (ground (arith, h))) in
      (rw none_found (unfold convert_all in refl), inr none_found)
