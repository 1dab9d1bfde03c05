-- ===== src/Mba/Rewrite.antt =====
-- The walk of lib/MBAAdd.cpp and lib/MBASub.cpp (runOnBasicBlock and run): each instruction that
-- the pass chooses is replaced by an `add` of two values that an IRBuilder computes before it.
-- ReplaceInstWithInst gives the new instruction the uses of the old one, so here it keeps the
-- identity of the old one; the iterator then stands on the new instruction, so neither it nor what
-- the builder inserted is visited.
pub mod Preserve
pub mod Program
use llvm_tutor.Prelude.{
  ℕ, ◌+◌, Bool, true, false, ◌||◌, Option, none, some, List, [], ◌∷◌, ◌++◌, if◌then◌else◌,
}
use llvm_tutor.Ir.{
  Value, Ty, BinaryOp, add, Opcode, binary, Instruction, BasicBlock, PreservedAnalyses,
}

-- The operands of the new `add`, and the instructions that compute them.
pub record Replacement : Type 0 where
  pub lhs : Value
  pub rhs : Value
  pub code : List Instruction
  pub next : ℕ

-- What a pass chooses: the instructions that it replaces, with their two operands, and by what.
pub record Rewriter : Type 0 where
  pub candidate : Instruction → Option (Value × Value)
  pub replacement : Ty → Value → Value → ℕ → Replacement

-- dyn_cast<BinaryOperator>, with getOperand(0) and getOperand(1).
abbrev pub binary_operands : Opcode → List Value → Option (BinaryOp × Value × Value)
binary_operands (binary op) (l ∷ r ∷ []) = some (op, l, r)
binary_operands _ _ = none

abbrev pub new_inst : Instruction → Replacement → Instruction
new_inst i p = record i { opcode = binary add; operands = p.lhs ∷ p.rhs ∷ [] }

-- `changed` is what runOnBasicBlock returns, `subst_count` how often it counts SubstCount up.
pub record Rewritten (A : Type 0) : Type 0 where
  pub changed : Bool
  pub code : A
  pub next : ℕ
  pub subst_count : ℕ

module _ (p : Rewriter) where
  unfoldable pub run_on_basic_block : ℕ → List Instruction → Rewritten (List Instruction)
  run_on_basic_block n [] = record { changed = false; code = []; next = n; subst_count = 0 }
  run_on_basic_block n (i ∷ is) = elim (p.candidate i) [
    | none ↦ let rest = run_on_basic_block n is in record rest { code = i ∷ rest.code }
    | some (l, r) ↦
        let new = p.replacement i.ty l r n in
        let rest = run_on_basic_block new.next is in
        record {
          changed = true;
          code = new.code ++ (new_inst i new ∷ rest.code);
          next = rest.next;
          subst_count = rest.subst_count + 1;
        }
  ]

  unfoldable pub run_on_blocks : ℕ → List BasicBlock → Rewritten (List BasicBlock)
  run_on_blocks n [] = record { changed = false; code = []; next = n; subst_count = 0 }
  run_on_blocks n (b ∷ bs) =
      let here = run_on_basic_block n b.instructions in
      let rest = run_on_blocks here.next bs in
      record {
        changed = here.changed || rest.changed;
        code = record b { instructions = here.code } ∷ rest.code;
        next = rest.next;
        subst_count = here.subst_count + rest.subst_count;
      }

  -- The new blocks, and the analyses that `run` reports as preserved.
  unfoldable pub run : ℕ → List BasicBlock → List BasicBlock × PreservedAnalyses
  run n bs =
      let out = run_on_blocks n bs in
      (
        out.code,
        if out.changed then PreservedAnalyses.none_preserved else PreservedAnalyses.all_preserved,
      )
