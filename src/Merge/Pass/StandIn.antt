-- ===== src/Merge/Pass/StandIn.antt =====
-- Which blocks pass the tests of the loop of MergeBB::mergeDuplicatedBlock.
use llvm_tutor.Prelude.{
  ℕ, ◌==◌, ◌≡◌, sym, ◌∙◌, ◌↔◌, inl, inr, true, false, Option, length, wrap_unsigned, arith,
  Bool-cases,
}
use llvm_tutor.Prelude.Containers.{nat_eq, contains}
use llvm_tutor.Ir.{Instruction}
use llvm_tutor.Merge.Lockstep.Pairs.{non_dbg, all_pairs, body_reversed}
use llvm_tutor.Merge.Pass.{Llvm, MergeState, instrs_of, is_duplicate}
use llvm_tutor.Merge.Pass.Outcome.{mergeable, IsDuplicate, is_duplicate-IsDuplicate}
use llvm_tutor.Merge.Pass.Tested.{
  EndsInJump, PhiFits, IsNoEntry, IsNoEntry-iff, unconditional_iff, num_non_dbg-eq, phi_fits,
  phi_allows-fits,
}

module _ (llvm : Llvm) (st : MergeState) (l1 : ℕ) where
  -- Block l2 can stand in for block l1, whose successor starts with the PHI node pn.
  pub record CanStandIn (pn : Option Instruction) (l2 : ℕ) : Type 0 where
    pub no_entry : IsNoEntry st.blocks l2
    pub jump : (k : ℕ) × EndsInJump st.blocks l2 k
    pub alive : contains st.delete_list l2 ≡ false
    pub differs : l2 ≡ l1 → ⊥
    pub same_size :
        wrap_unsigned (length (non_dbg (instrs_of st.blocks l1)))
        ≡ wrap_unsigned (length (non_dbg (instrs_of st.blocks l2)))
    pub phi_fits_both : PhiFits st.blocks l1 l2 pn
    pub same_code :
        all_pairs
          (mergeable llvm st l1 l2)
          (body_reversed (instrs_of st.blocks l1))
          (body_reversed (instrs_of st.blocks l2))
        ≡ true

  can_stand_in :
      (pn : Option Instruction) (l2 : ℕ) → IsDuplicate llvm st l1 pn l2 → CanStandIn pn l2
  can_stand_in pn l2 d = record {
    no_entry = (IsNoEntry-iff st.blocks l2).0 d.not_entry;
    jump = (unconditional_iff st.blocks l2).0 d.unconditional;
    alive = d.alive;
    differs = λ p. ground (arith, d.differs, p);
    same_size =
        sym (num_non_dbg-eq (instrs_of st.blocks l1))
        ∙ d.same_size
        ∙ num_non_dbg-eq (instrs_of st.blocks l2);
    phi_fits_both = phi_fits st.blocks pn l1 l2 d.phi_fits;
    same_code = d.same_code;
  }

  no_match : (l2 : ℕ) → (l2 ≡ l1 → ⊥) → (l2 == l1) ≡ false
  no_match l2 n = elim (Bool-cases (l2 == l1)) [
    | inl e ↦ absurd (n (ground (arith, e)))
    | inr e ↦ e
  ]

  duplicate : (pn : Option Instruction) (l2 : ℕ) → CanStandIn pn l2 → IsDuplicate llvm st l1 pn l2
  duplicate pn l2 d = record {
    not_entry = (IsNoEntry-iff st.blocks l2).1 d.no_entry;
    unconditional = (unconditional_iff st.blocks l2).1 d.jump;
    alive = d.alive;
    differs = no_match l2 d.differs;
    same_size =
        num_non_dbg-eq (instrs_of st.blocks l1)
        ∙ d.same_size
        ∙ sym (num_non_dbg-eq (instrs_of st.blocks l2));
    phi_fits = phi_allows-fits st.blocks l1 l2 pn d.phi_fits_both;
    same_code = d.same_code;
  }

  -- A block passes all tests of the loop exactly when it is not the entry block, ends in a branch with
  -- a single operand, is not marked, is not BB1, has as many non-debug instructions as BB1, as a 32-bit
  -- number, fits the PHI node of the successor, and all pairs of instructions from the end are
  -- mergeable.
  pub is_duplicate_iff :
      (pn : Option Instruction) (l2 : ℕ) → (is_duplicate llvm st l1 pn l2 ≡ true) ↔ CanStandIn pn l2
  is_duplicate_iff pn l2 =
      let tests = is_duplicate-IsDuplicate llvm st l1 pn l2 in
      (λ h. can_stand_in pn l2 (tests.0 h), λ d. tests.1 (duplicate pn l2 d))
