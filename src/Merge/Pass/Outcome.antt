-- ===== src/Merge/Pass/Outcome.antt =====
-- The two ways a round of MergeBB::mergeDuplicatedBlock ends, and what MergeBB::run reports.
use llvm_tutor.Prelude.{
  ℕ, ◌==◌, ◌≡◌, refl, ap, sym, ◌∙◌, ◌↔◌, Bool, true, false, not, inl, inr, Option, none, some, List,
  [], ◌∷◌, if◌then◌else◌, arith, Bool-cases,
}
use llvm_tutor.Prelude.Containers.{nat_eq, contains}
use llvm_tutor.Ir.{Instruction}
use llvm_tutor.Ir.Query.{is_entry}
use llvm_tutor.Merge.Insts.{can_merge_instructions}
use llvm_tutor.Merge.Lockstep.Pairs.{all_pairs, body_reversed, no_mismatch-eq}
use llvm_tutor.Merge.Pass.{
  Llvm, MergeState, num_non_dbg, instrs_of, block_target, all_branch_or_switch, first_phi,
  multiple_phis, phi_allows, is_unconditional, is_duplicate, find_duplicate, merge_into,
  merge_duplicated_block,
}

module _ (llvm : Llvm) (st : MergeState) (l1 : ℕ) where
  abbrev pub mergeable : ℕ → Instruction → Instruction → Bool
  mergeable l2 i j = can_merge_instructions llvm.same_operation st.blocks l1 i l2 j

  -- Block l2 may stand in for block l1, whose successor starts with the PHI node pn.
  pub record IsDuplicate (pn : Option Instruction) (l2 : ℕ) : Type 0 where
    pub not_entry : is_entry st.blocks l2 ≡ false
    pub unconditional : is_unconditional (block_target st.blocks l2) ≡ true
    pub alive : contains st.delete_list l2 ≡ false
    pub differs : (l2 == l1) ≡ false
    pub same_size : num_non_dbg (instrs_of st.blocks l1) ≡ num_non_dbg (instrs_of st.blocks l2)
    pub phi_fits : phi_allows st.blocks pn l1 l2 ≡ true
    pub same_code :
        all_pairs
          (mergeable l2)
          (body_reversed (instrs_of st.blocks l1))
          (body_reversed (instrs_of st.blocks l2))
        ≡ true

  duplicate :
      (pn : Option Instruction) (l2 : ℕ) → is_duplicate llvm st l1 pn l2 ≡ true → IsDuplicate pn l2
  unfolding is_duplicate
  duplicate pn l2 h = record {
    not_entry = ground (arith, h);
    unconditional = ground (arith, h);
    alive = ground (arith, h);
    differs = ground (arith, h);
    same_size = ground (arith, h);
    phi_fits = ground (arith, h);
    same_code = sym (no_mismatch-eq (mergeable l2) _ _) ∙ ground (arith, h);
  }

  pub is_duplicate-IsDuplicate :
      (pn : Option Instruction) (l2 : ℕ)
      → (is_duplicate llvm st l1 pn l2 ≡ true) ↔ IsDuplicate pn l2
  unfolding is_duplicate
  is_duplicate-IsDuplicate pn l2 = (
    duplicate pn l2,
    λ d.
        let same =
          no_mismatch-eq (mergeable l2) (instrs_of st.blocks l1) (instrs_of st.blocks l2)
          ∙ d.same_code in
        ground
          (arith, d.not_entry, d.unconditional, d.alive, d.differs, d.same_size, d.phi_fits, same),
  )

  find_duplicate-found :
      (pn : Option Instruction) (ls : List ℕ) (l2 : ℕ)
      → find_duplicate llvm st l1 pn ls ≡ some l2
      → (is_duplicate llvm st l1 pn l2 ≡ true) × (contains ls l2 ≡ true)
  unfolding find_duplicate contains
  find_duplicate-found pn [] l2 h = absurd (ground arith)
  find_duplicate-found pn (l ∷ ls) l2 h = elim (Bool-cases (is_duplicate llvm st l1 pn l)) [
    | inl d ↦
        let same : l ≡ l2 = ground (arith, d, h) in
        (sym (ap (is_duplicate llvm st l1 pn) same) ∙ d, ground (arith, same))
    | inr d ↦
        let rest = find_duplicate-found pn ls l2 (ground (arith, d, h)) in
        (rest.0, ground (arith, rest.1))
  ]

  pub data Outcome (out : Bool × MergeState) : Type 0 where
    unchanged : out ≡ (false, st) → Outcome out
    merged :
        (succ l2 : ℕ)
        → is_entry st.blocks l1 ≡ false
        → block_target st.blocks l1 ≡ some succ
        → all_branch_or_switch st.blocks (llvm.predecessors st.blocks l1) ≡ true
        → multiple_phis (instrs_of st.blocks succ) ≡ false
        → contains (llvm.predecessors st.blocks succ) l2 ≡ true
        → IsDuplicate (first_phi (instrs_of st.blocks succ)) l2
        → out ≡ (true, merge_into llvm st l1 l2)
        → Outcome out

  Outcome-found :
      (succ : ℕ) (found : Option ℕ)
      → is_entry st.blocks l1 ≡ false
      → block_target st.blocks l1 ≡ some succ
      → all_branch_or_switch st.blocks (llvm.predecessors st.blocks l1) ≡ true
      → multiple_phis (instrs_of st.blocks succ) ≡ false
      → find_duplicate llvm st l1
          (first_phi (instrs_of st.blocks succ))
          (llvm.predecessors st.blocks succ)
        ≡ found
      → Outcome (elim found as (λ x. Bool × MergeState) [
        | none ↦ (false, st)
        | some l2 ↦ (true, merge_into llvm st l1 l2)
      ])
  Outcome-found succ none p q r m h = unchanged refl
  Outcome-found succ (some l2) p q r m h =
      let d = find_duplicate-found _ _ l2 h in merged succ l2 p q r m d.1 (duplicate _ l2 d.0) refl

  Outcome-targeted :
      (target : Option ℕ)
      → is_entry st.blocks l1 ≡ false
      → block_target st.blocks l1 ≡ target
      → Outcome (elim target as (λ x. Bool × MergeState) [
        | none ↦ (false, st)
        | some succ ↦
            if not (all_branch_or_switch st.blocks (llvm.predecessors st.blocks l1))
            then (false, st)
            else if multiple_phis (instrs_of st.blocks succ)
            then (false, st)
            else elim (find_duplicate llvm st l1
                  (first_phi (instrs_of st.blocks succ))
                  (llvm.predecessors st.blocks succ))
                as (λ x. Bool × MergeState) [
                  | none ↦ (false, st)
                  | some l2 ↦ (true, merge_into llvm st l1 l2)
                ]
      ])
  Outcome-targeted none p q = unchanged refl
  Outcome-targeted (some succ) p q =
      elim (Bool-cases (all_branch_or_switch st.blocks (llvm.predecessors st.blocks l1))) [
        | inr r ↦ rw r (unchanged refl)
        | inl r ↦ elim (Bool-cases (multiple_phis (instrs_of st.blocks succ))) [
          | inl m ↦ rw (r, m) (unchanged refl)
          | inr m ↦ rw (r, m) (Outcome-found succ _ p q r m refl)
        ]
      ]

  -- A round leaves everything as it was, or merges BB1 into a block that may stand in for it.
  pub merge_duplicated_block-Outcome : Outcome (merge_duplicated_block llvm l1 st)
  unfolding merge_duplicated_block
  merge_duplicated_block-Outcome = elim (Bool-cases (is_entry st.blocks l1)) [
    | inl e ↦ rw e (unchanged refl)
    | inr e ↦ rw e (Outcome-targeted _ e refl)
  ]
