-- ===== src/Merge/Pass.antt =====
-- MergeBB::mergeDuplicatedBlock and MergeBB::run, with the static getNumNonDbgInstrInBB. What LLVM
-- implements comes in as a record: Instruction::isSameOperationAs, predecessors(BB) in the order of
-- the use list, and DeleteDeadBlock.
pub mod Outcome
pub mod Tested
pub mod StandIn
pub mod Dead
use llvm_tutor.Prelude.{
  ℕ, wrap_unsigned, ◌+◌, ◌==◌, ◌≡◌, refl, Bool, true, false, ◌||◌, ◌&&◌, not, Option, none, some,
  List, [], ◌∷◌, if◌then◌else◌,
}
use llvm_tutor.Prelude.Containers.{nat_eq, contains, insert}
use llvm_tutor.Ir.{
  Value, instruction, same_value, Opcode, Instruction, BasicBlock, PreservedAnalyses,
}
use llvm_tutor.Ir.Query.{
  find_block, is_entry, get_terminator, is_dbg, is_phi, is_branch_or_switch, unconditional_target,
  phi_incoming, in_block,
}
use llvm_tutor.Merge.Insts.{can_merge_instructions}
use llvm_tutor.Merge.Lockstep.{no_mismatch}
use llvm_tutor.Merge.Targets.{update_branch_targets}

pub record Llvm : Type 0 where
  pub same_operation : Instruction → Instruction → Bool
  pub predecessors : List BasicBlock → ℕ → List ℕ
  pub delete_dead_block : ℕ → List BasicBlock → List BasicBlock

-- The function's blocks, DeleteList, and the statistics NumDedupBBs and
-- OverallNumOfUpdatedBranchTargets.
pub record MergeState : Type 0 where
  pub blocks : List BasicBlock
  pub delete_list : List ℕ
  pub num_dedup : ℕ
  pub updated_targets : ℕ

unfoldable pub num_non_dbg : List Instruction → ℕ
num_non_dbg [] = 0
num_non_dbg (i ∷ is) =
    let rest = num_non_dbg is in if is_dbg i.opcode then rest else wrap_unsigned (rest + 1)

abbrev pub instrs_of : List BasicBlock → ℕ → List Instruction
instrs_of bs l = elim (find_block l bs) [ none ↦ [] | some b ↦ b.instructions ]

-- The successor of a block that ends in an unconditional branch.
unfoldable pub block_target : List BasicBlock → ℕ → Option ℕ
block_target bs l = elim (find_block l bs) [
  | none ↦ none
  | some b ↦ elim (get_terminator b) [ none ↦ none | some t ↦ unconditional_target t ]
]

-- All blocks of the list end in a branch or a switch.
unfoldable pub all_branch_or_switch : List BasicBlock → List ℕ → Bool
all_branch_or_switch bs [] = true
all_branch_or_switch bs (l ∷ ls) =
    let here : Bool = elim (find_block l bs) [
      | none ↦ false
      | some b ↦ elim (get_terminator b) [ none ↦ false | some t ↦ is_branch_or_switch t.opcode ]
    ] in
    here && all_branch_or_switch bs ls

-- PN, and whether a second PHI node follows it.
abbrev pub first_phi : List Instruction → Option Instruction
first_phi [] = none
first_phi (i ∷ is) = if is_phi i.opcode then some i else none

abbrev pub multiple_phis : List Instruction → Bool
multiple_phis (i ∷ j ∷ is) = is_phi i.opcode && is_phi j.opcode
multiple_phis _ = false

-- areValuesSimilar and one half of bothValuesDefinedInParent.
abbrev pub similar : Option Value → Option Value → Bool
similar (some v) (some w) = same_value v w
similar _ _ = false

abbrev pub defined_in : List BasicBlock → ℕ → Option Value → Bool
defined_in bs l (some (instruction x)) = in_block bs x l
defined_in bs l _ = false

-- The test on the incoming values of the successor's PHI node, if there is one.
unfoldable pub phi_allows : List BasicBlock → Option Instruction → ℕ → ℕ → Bool
phi_allows bs none l1 l2 = true
phi_allows bs (some pn) l1 l2 =
    similar (phi_incoming pn l1) (phi_incoming pn l2)
    || (defined_in bs l1 (phi_incoming pn l1) && defined_in bs l2 (phi_incoming pn l2))

abbrev pub is_unconditional : Option ℕ → Bool
is_unconditional none = false
is_unconditional (some l) = true

abbrev pub labels : List BasicBlock → List ℕ
labels [] = []
labels (b ∷ bs) = b.label ∷ labels bs

abbrev pub merge_start : List BasicBlock → MergeState
merge_start bs = record { blocks = bs; delete_list = []; num_dedup = 0; updated_targets = 0 }

module _ (llvm : Llvm) where
  -- The `continue`s of the loop over BB2, from the first. The loop over the predecessors of BB2
  -- has a `continue` that ends only a round of that inner loop, so it tests nothing.
  unfoldable pub is_duplicate : MergeState → ℕ → Option Instruction → ℕ → Bool
  is_duplicate st l1 pn l2 =
      if is_entry st.blocks l2
      then false
      else if not (is_unconditional (block_target st.blocks l2))
      then false
      else if contains st.delete_list l2
      then false
      else if l2 == l1
      then false
      else if not (num_non_dbg (instrs_of st.blocks l1) == num_non_dbg (instrs_of st.blocks l2))
      then false
      else if not (phi_allows st.blocks pn l1 l2)
      then false
      else no_mismatch (λ i j. can_merge_instructions llvm.same_operation st.blocks l1 i l2 j)
          (instrs_of st.blocks l1) (instrs_of st.blocks l2)

  -- The first of the predecessors of the successor that passes.
  unfoldable pub find_duplicate : MergeState → ℕ → Option Instruction → List ℕ → Option ℕ
  find_duplicate st l1 pn [] = none
  find_duplicate st l1 pn (l2 ∷ ls) =
      if is_duplicate st l1 pn l2 then some l2 else find_duplicate st l1 pn ls

  -- The end of a successful round: BB1's edges go to BB2, and BB1 is to be deleted.
  abbrev pub merge_into : MergeState → ℕ → ℕ → MergeState
  merge_into st l1 l2 =
      let out = update_branch_targets llvm.predecessors l1 l2 st.blocks in
      record {
        blocks = out.now;
        delete_list = insert l1 st.delete_list;
        num_dedup = st.num_dedup + 1;
        updated_targets = st.updated_targets + out.count;
      }

  unfoldable pub merge_duplicated_block : ℕ → MergeState → Bool × MergeState
  merge_duplicated_block l1 st =
      if is_entry st.blocks l1 then (false, st) else elim (block_target st.blocks l1) [
        | none ↦ (false, st)
        | some succ ↦
            if not (all_branch_or_switch st.blocks (llvm.predecessors st.blocks l1))
            then (false, st)
            else if multiple_phis (instrs_of st.blocks succ)
            then (false, st)
            else elim (find_duplicate st l1 (first_phi (instrs_of st.blocks succ))
                (llvm.predecessors st.blocks succ)) [
                  | none ↦ (false, st)
                  | some l2 ↦ (true, merge_into st l1 l2)
                ]
      ]

  -- for (auto &BB : Func): no block is added or removed meanwhile.
  unfoldable pub merge_all : List ℕ → MergeState → Bool × MergeState
  merge_all [] st = (false, st)
  merge_all (l ∷ ls) st =
      let here = merge_duplicated_block l st in
      let rest = merge_all ls here.1 in (here.0 || rest.0, rest.1)

  unfoldable pub delete_all : List ℕ → List BasicBlock → List BasicBlock
  delete_all [] bs = bs
  delete_all (l ∷ ls) bs = delete_all ls (llvm.delete_dead_block l bs)

  -- MergeBB::run: the new blocks, and what is preserved.
  unfoldable pub merge_run : List BasicBlock → List BasicBlock × PreservedAnalyses
  merge_run bs =
      let out = merge_all (labels bs) (merge_start bs) in
      (
        delete_all out.1.delete_list out.1.blocks,
        if out.0 then PreservedAnalyses.none_preserved else PreservedAnalyses.all_preserved,
      )
