-- ===== src/Merge/Targets.antt =====
-- MergeBB::updateBranchTargets. A terminator's operands are replaced in place. `predecessors` is
-- LLVM's, in an order of its own; a predecessor with several edges comes up several times, which
-- the second time finds nothing to replace.
pub mod Edges
use llvm_tutor.Prelude.{
  ℕ, wrap_unsigned, ◌+◌, ◌==◌, ◌≡◌, refl, Bool, true, false, List, [], ◌∷◌, if◌then◌else◌,
}
use llvm_tutor.Ir.{Value, basic_block, same_value, Instruction, BasicBlock}

pub record Updated (A : Type 0) : Type 0 where
  pub now : A
  pub count : ℕ

module _ (erase retain : ℕ) where
  unfoldable pub update_operands : List Value → Updated (List Value)
  update_operands [] = record { now = []; count = 0 }
  update_operands (v ∷ vs) =
      let rest = update_operands vs in
      if same_value v (basic_block erase)
      then record { now = basic_block retain ∷ rest.now; count = wrap_unsigned (rest.count + 1) }
      else record { now = v ∷ rest.now; count = rest.count }

  -- The terminator is the last instruction.
  unfoldable pub update_terminator : List Instruction → Updated (List Instruction)
  unfolding update_operands
  update_terminator [] = record { now = []; count = 0 }
  update_terminator (t ∷ []) =
      let ops = update_operands t.operands in
      record { now = record t { operands = ops.now } ∷ []; count = ops.count }
  update_terminator (i ∷ j ∷ is) =
      let rest = update_terminator (j ∷ is) in record { now = i ∷ rest.now; count = rest.count }

  -- Only the block with that label is changed; labels stand for the identities of blocks.
  unfoldable pub update_block : ℕ → List BasicBlock → Updated (List BasicBlock)
  unfolding update_terminator
  update_block l [] = record { now = []; count = 0 }
  update_block l (b ∷ bs) =
      let rest = update_block l bs in
      let here = update_terminator b.instructions in
      if b.label == l
      then record {
        now = record b { instructions = here.now } ∷ rest.now;
        count = wrap_unsigned (here.count + rest.count);
      }
      else record { now = b ∷ rest.now; count = rest.count }

  -- The loop over BBToUpdate.
  unfoldable pub update_all : List ℕ → List BasicBlock → Updated (List BasicBlock)
  unfolding update_block
  update_all [] bs = record { now = bs; count = 0 }
  update_all (l ∷ ls) bs =
      let here = update_block l bs in
      let rest = update_all ls here.now in
      record { now = rest.now; count = wrap_unsigned (here.count + rest.count) }

module _ (predecessors : List BasicBlock → ℕ → List ℕ) where
  unfoldable pub update_branch_targets : ℕ → ℕ → List BasicBlock → Updated (List BasicBlock)
  unfolding update_all
  update_branch_targets erase retain bs = update_all erase retain (predecessors bs erase) bs
