-- ===== src/Merge/Tests.antt =====
-- MergeBB on a function with two equal blocks.
use llvm_tutor.Prelude.{
  ℕ, ◌==◌, ◌≡◌, ◌↔◌, refl, Bool, true, false, ◌&&◌, not, none, List, [], ◌∷◌, All, if◌then◌else◌,
  arith,
}
use llvm_tutor.Prelude.Containers.{nat_eq, contains, insert}
use llvm_tutor.Ir.{
  Value, argument, same_value, basic_block, void_ty, br, ret, other, Instruction, BasicBlock,
  PreservedAnalyses,
}
use llvm_tutor.Ir.Query.{
  find_block, is_entry, last_inst, uses_in_operands, uses_in_block, uses, mentions, targets,
}
use llvm_tutor.Merge.Insts.{
  last_target, successor0, can_remove_inst, same_operands, can_merge_instructions,
}
use llvm_tutor.Merge.Insts.Mergeable.{UsesFit, can_merge_instructions_iff}
use llvm_tutor.Merge.Lockstep.{
  skip_dbg, prev_non_dbg, get_last_non_dbg_inst, lockstep_start, lockstep_prev, lockstep_loop,
  no_mismatch,
}
use llvm_tutor.Merge.Lockstep.Pairs.{all_pairs, body_reversed, no_mismatch-eq}
use llvm_tutor.Merge.Targets.Edges.{
  ListsAll, Blockwise, IsRedirected, update_branch_targets-redirects,
}
use llvm_tutor.Merge.Targets.{
  update_operands, update_terminator, update_block, update_all, update_branch_targets,
}
use llvm_tutor.Merge.Pass.{
  Llvm, num_non_dbg, instrs_of, block_target, all_branch_or_switch, phi_allows, is_duplicate,
  find_duplicate, merge_duplicated_block, merge_all, delete_all, labels, merge_start, merge_run,
}
use llvm_tutor.Merge.Pass.Outcome.{Outcome, merge_duplicated_block-Outcome}
use llvm_tutor.Merge.Pass.StandIn.{CanStandIn, is_duplicate_iff}
use llvm_tutor.Merge.Pass.Dead.{HasNoEdgesTo, merge_all-HasNoEdgesTo, merge_run-preserved}

unfoldable predecessors_of : List BasicBlock → ℕ → List ℕ
predecessors_of [] l = []
predecessors_of (b ∷ bs) l =
    let rest = predecessors_of bs l in if targets b l then b.label ∷ rest else rest

predecessors_of_complete :
    (l : ℕ) (bs : List BasicBlock) (ps : List ℕ)
    → ((k : ℕ) → contains (predecessors_of bs l) k ≡ true → contains ps k ≡ true)
    → All (λ b. (targets b l && not (contains ps b.label)) ≡ false) bs
predecessors_of_complete l [] ps h = _
predecessors_of_complete l (b ∷ bs) ps h = (
  unfold predecessors_of contains in ground (arith, h b.label),
  predecessors_of_complete l bs ps
      (λ k e. h k (unfold predecessors_of contains in ground (arith, e))),
)

predecessors_of-ListsAll : (l : ℕ) (bs : List BasicBlock) → ListsAll predecessors_of l bs
predecessors_of-ListsAll l bs = predecessors_of_complete l bs _ (λ k e. e)

abbrev same_opcode : Instruction → Instruction → Bool
same_opcode i j = elim i.opcode [
  | br ↦ elim j.opcode [ br ↦ true | _ ↦ false ]
  | other a ↦ elim j.opcode [ other b ↦ a == b | _ ↦ false ]
  | _ ↦ false
]

abbrev delete_block : ℕ → List BasicBlock → List BasicBlock
delete_block l [] = []
delete_block l (b ∷ bs) = if b.label == l then bs else b ∷ delete_block l bs

abbrev llvm : Llvm
llvm = record {
  same_operation = same_opcode;
  predecessors = predecessors_of;
  delete_dead_block = delete_block;
}

abbrev store : ℕ → Instruction
store n = record { id = n; opcode = other 7; ty = void_ty; operands = argument 0 ∷ [] }

abbrev jump : ℕ → List Value → Instruction
jump n vs = record { id = n; opcode = br; ty = void_ty; operands = vs }

abbrev block : ℕ → List Instruction → BasicBlock
block l is = record { label = l; instructions = is }

-- 0 branches to 1 and 2, which do the same and go on to 3.
abbrev diamond : List BasicBlock
diamond =
    block 0 (jump 10 (argument 1 ∷ basic_block 2 ∷ basic_block 1 ∷ []) ∷ [])
    ∷ block 1 (store 11 ∷ jump 12 (basic_block 3 ∷ []) ∷ [])
    ∷ block 2 (store 13 ∷ jump 14 (basic_block 3 ∷ []) ∷ [])
    ∷ block 3 (record { id = 15; opcode = ret; ty = void_ty; operands = [] } ∷ [])
    ∷ []

-- Block 1 is merged into block 2; both edges of the entry lead to 2 then.
merged_diamond : merge_run llvm diamond ≡ (
  block 0 (jump 10 (argument 1 ∷ basic_block 2 ∷ basic_block 2 ∷ []) ∷ [])
      ∷ block 2 (store 13 ∷ jump 14 (basic_block 3 ∷ []) ∷ [])
      ∷ block 3 (record { id = 15; opcode = ret; ty = void_ty; operands = [] } ∷ [])
      ∷ [],
  PreservedAnalyses.none_preserved,
)
unfolding predecessors_of find_block is_entry last_inst uses_in_operands uses_in_block uses mentions
    targets same_value last_target successor0 can_remove_inst same_operands can_merge_instructions
    skip_dbg prev_non_dbg get_last_non_dbg_inst lockstep_start lockstep_prev lockstep_loop
    no_mismatch update_operands update_terminator update_block update_all update_branch_targets
    num_non_dbg block_target all_branch_or_switch phi_allows is_duplicate find_duplicate
    merge_duplicated_block merge_all delete_all merge_run contains insert
merged_diamond = refl

merged_one : contains (merge_all llvm (labels diamond) (merge_start diamond)).1.delete_list 1 ≡ true
unfolding predecessors_of find_block is_entry last_inst uses_in_operands uses_in_block uses mentions
    targets same_value last_target successor0 can_remove_inst same_operands can_merge_instructions
    skip_dbg prev_non_dbg get_last_non_dbg_inst lockstep_start lockstep_prev lockstep_loop
    no_mismatch update_operands update_terminator update_block update_all update_branch_targets
    num_non_dbg block_target all_branch_or_switch phi_allows is_duplicate find_duplicate
    merge_duplicated_block merge_all contains insert
merged_one = refl

can_merge_instructions_iff_example :
    (can_merge_instructions same_opcode diamond 1 (store 11) 2 (store 13) ≡ true) ↔ (
      (same_opcode (store 11) (store 13) ≡ true)
      × ((store 11).operands ≡ (store 13).operands)
      × UsesFit diamond 1 (store 11) 2 (store 13))
can_merge_instructions_iff_example =
    can_merge_instructions_iff same_opcode diamond 1 (store 11) 2 (store 13)

no_mismatch-eq_example :
    no_mismatch same_opcode (instrs_of diamond 1) (instrs_of diamond 2)
    ≡ all_pairs same_opcode
        (body_reversed (instrs_of diamond 1))
        (body_reversed (instrs_of diamond 2))
no_mismatch-eq_example = no_mismatch-eq same_opcode (instrs_of diamond 1) (instrs_of diamond 2)

update_branch_targets-redirects_example :
    Blockwise
      (IsRedirected 1 2 (λ b. true))
      diamond
      (update_branch_targets predecessors_of 1 2 diamond).now
update_branch_targets-redirects_example =
    update_branch_targets-redirects predecessors_of 1 2 diamond refl
      (predecessors_of-ListsAll 1 diamond)

is_duplicate_iff_example :
    (is_duplicate llvm (merge_start diamond) 1 none 2 ≡ true)
    ↔ CanStandIn llvm (merge_start diamond) 1 none 2
is_duplicate_iff_example = is_duplicate_iff llvm (merge_start diamond) 1 none 2

merge_duplicated_block-Outcome_example :
    Outcome llvm (merge_start diamond) 1 (merge_duplicated_block llvm 1 (merge_start diamond))
merge_duplicated_block-Outcome_example = merge_duplicated_block-Outcome llvm (merge_start diamond) 1

merge_all-HasNoEdgesTo_example :
    HasNoEdgesTo 1 (merge_all llvm (labels diamond) (merge_start diamond)).1.blocks
    × (is_entry (merge_all llvm (labels diamond) (merge_start diamond)).1.blocks 1 ≡ false)
merge_all-HasNoEdgesTo_example =
    merge_all-HasNoEdgesTo llvm predecessors_of-ListsAll diamond 1 merged_one

abbrev exit_only : List BasicBlock
exit_only = block 3 (record { id = 15; opcode = ret; ty = void_ty; operands = [] } ∷ []) ∷ []

exit_only-kept : (merge_run llvm exit_only).1 ≡ PreservedAnalyses.all_preserved
unfolding merge_run merge_all merge_duplicated_block is_entry
exit_only-kept = refl

merge_run-preserved_example : (merge_run llvm exit_only).0 ≡ exit_only
merge_run-preserved_example = merge_run-preserved llvm exit_only exit_only-kept
