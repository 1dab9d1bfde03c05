-- ===== src/Merge/Pass/Dead.antt =====
-- The blocks that MergeBB::run hands to DeleteDeadBlock, and what it reports.
use llvm_tutor.Prelude.{
  ℕ, ◌==◌, ◌≡◌, refl, ap, sym, ◌∙◌, true, false, inl, inr, List, [], ◌∷◌, All, arith, Bool-cases,
  ==_iff,
}
use llvm_tutor.Prelude.Containers.{nat_eq, contains, contains-insert}
use llvm_tutor.Ir.{BasicBlock, PreservedAnalyses}
use llvm_tutor.Ir.Query.{is_entry, targets}
use llvm_tutor.Merge.Targets.Edges.{
  redirected, Blockwise, IsRedirected, ListsAll, update_branch_targets-redirects,
}
use llvm_tutor.Merge.Pass.{
  Llvm, MergeState, merge_into, merge_duplicated_block, merge_all, delete_all, merge_run, labels,
  merge_start,
}
use llvm_tutor.Merge.Pass.Outcome.{unchanged, merged, merge_duplicated_block-Outcome}

abbrev pub HasNoEdgesTo : ℕ → List BasicBlock → Type 0
HasNoEdgesTo d bs = All (λ b. targets b d ≡ false) bs

-- No block of DeleteList is the entry block or the target of a terminator.
abbrev pub IsDeadList : MergeState → Type 0
IsDeadList st =
    (d : ℕ)
    → contains st.delete_list d ≡ true
    → HasNoEdgesTo d st.blocks × (is_entry st.blocks d ≡ false)

module _ (erase retain d : ℕ) where
  edges_gone :
      (bs cs : List BasicBlock)
      → Blockwise (IsRedirected erase retain (λ b. true)) bs cs
      → (d == erase) ≡ true
      → HasNoEdgesTo d cs
  unfolding redirected
  edges_gone [] [] p e = _
  edges_gone (b ∷ bs) (c ∷ cs) ((p, q, r), ps) e = (ground (arith, r d, e), edges_gone bs cs ps e)
  edges_gone [] (c ∷ cs) p e = absurd p
  edges_gone (b ∷ bs) [] p e = absurd p

  edges_still_gone :
      (bs cs : List BasicBlock)
      → Blockwise (IsRedirected erase retain (λ b. true)) bs cs
      → (d == retain) ≡ false
      → HasNoEdgesTo d bs
      → HasNoEdgesTo d cs
  unfolding redirected
  edges_still_gone [] [] p e a = _
  edges_still_gone (b ∷ bs) (c ∷ cs) ((p, q, r), ps) e (a, more) =
      (ground (arith, r d, e, a), edges_still_gone bs cs ps e more)
  edges_still_gone [] (c ∷ cs) p e a = absurd p
  edges_still_gone (b ∷ bs) [] p e a = absurd p

  entry_stays :
      (bs cs : List BasicBlock)
      → Blockwise (IsRedirected erase retain (λ b. true)) bs cs
      → is_entry cs d ≡ is_entry bs d
  unfolding is_entry
  entry_stays [] [] p = refl
  entry_stays (b ∷ bs) (c ∷ cs) (p, ps) = ap (λ l. l == d) p.0
  entry_stays [] (c ∷ cs) p = absurd p
  entry_stays (b ∷ bs) [] p = absurd p

module _ (llvm : Llvm)
    (law : (l : ℕ) (bs : List BasicBlock) → ListsAll llvm.predecessors l bs) where
  merge_into-IsDeadList :
      (st : MergeState) (l1 l2 : ℕ)
      → IsDeadList st
      → is_entry st.blocks l1 ≡ false
      → contains st.delete_list l2 ≡ false
      → (l2 == l1) ≡ false
      → IsDeadList (merge_into llvm st l1 l2)
  merge_into-IsDeadList st l1 l2 dead first alive differs d h =
      let moved =
        update_branch_targets-redirects llvm.predecessors l1 l2 st.blocks (ground (arith, differs))
          (law l1 st.blocks) in
      elim (Bool-cases (d == l1)) [
        | inl e ↦ (
          edges_gone l1 l2 d _ _ moved e,
          entry_stays l1 l2 d _ _ moved ∙ ap (is_entry st.blocks) ((==_iff d l1).0 e) ∙ first,
        )
        | inr e ↦
            let old : contains st.delete_list d ≡ true =
              ground (arith, contains-insert l1 d st.delete_list, h, e) in
            let other : (d == l2) ≡ false = grind (arith, old, alive, ==_iff d l2) in
            (
              edges_still_gone l1 l2 d _ _ moved other (dead d old).0,
              entry_stays l1 l2 d _ _ moved ∙ (dead d old).1,
            )
      ]

  block-IsDeadList :
      (st : MergeState) (l1 : ℕ) → IsDeadList st → IsDeadList (merge_duplicated_block llvm l1 st).1
  block-IsDeadList st l1 dead = elim (merge_duplicated_block-Outcome llvm st l1) [
    | unchanged e ↦ rw e dead
    | merged succ l2 first t p m q dup e ↦
        rw e (merge_into-IsDeadList st l1 l2 dead first dup.alive dup.differs)
  ]

  all-IsDeadList :
      (ls : List ℕ) (st : MergeState) → IsDeadList st → IsDeadList (merge_all llvm ls st).1
  unfolding merge_all
  all-IsDeadList [] st dead = dead
  all-IsDeadList (l ∷ ls) st dead = all-IsDeadList ls _ (block-IsDeadList st l dead)

  -- When the deletion starts, no terminator targets a block of DeleteList, and the entry block is
  -- not in it, if predecessors(BB) lists every block with an edge to BB.
  pub merge_all-HasNoEdgesTo :
      (bs : List BasicBlock) (d : ℕ)
      → contains (merge_all llvm (labels bs) (merge_start bs)).1.delete_list d ≡ true
      → HasNoEdgesTo d (merge_all llvm (labels bs) (merge_start bs)).1.blocks
        × (is_entry (merge_all llvm (labels bs) (merge_start bs)).1.blocks d ≡ false)
  merge_all-HasNoEdgesTo bs =
      all-IsDeadList (labels bs) (merge_start bs)
        (λ d h. absurd (unfold contains in ground (arith, h)))

module _ (llvm : Llvm) where
  all-same :
      (ls : List ℕ) (st : MergeState)
      → (merge_all llvm ls st).0 ≡ false
      → (merge_all llvm ls st).1 ≡ st
  unfolding merge_all
  all-same [] st h = refl
  all-same (l ∷ ls) st h = elim (merge_duplicated_block-Outcome llvm st l) [
    | unchanged e ↦
        ap (λ r. (merge_all llvm ls r.1).1) e
        ∙ all-same ls st (sym (ap (λ r. (merge_all llvm ls r.1).0) e) ∙ ground (arith, h))
    | merged succ l2 first t p m q dup e ↦ absurd (ground (arith, h, ap (λ r. r.0) e))
  ]

  -- If run reports that all analyses are preserved, the function is as it was.
  pub merge_run-preserved :
      (bs : List BasicBlock)
      → (merge_run llvm bs).1 ≡ PreservedAnalyses.all_preserved
      → (merge_run llvm bs).0 ≡ bs
  unfolding merge_run delete_all
  merge_run-preserved bs h =
      ap (λ st. delete_all llvm st.delete_list st.blocks)
        (all-same (labels bs) (merge_start bs) (ground (arith, h)))
