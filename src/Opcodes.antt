-- ===== src/Opcodes.antt =====
-- lib/OpcodeCounter.cpp: how often each opcode occurs in a function. Instruction::getOpcodeName is
-- LLVM's, a parameter here. A StringMap stands as a list of keys and values; its order is that of
-- insertion, which LLVM does not promise, and nothing below depends on it.
pub mod Correct
pub mod Printer
mod Tests
use Prim.Native.String.{String}
use llvm_tutor.Prelude.{ℕ, ◌+◌, wrap_unsigned, Bool, Option, none, some, List, [], ◌∷◌}
use llvm_tutor.Prelude.Containers.{string_eq, find, modify}
use llvm_tutor.Ir.{Opcode, Instruction, BasicBlock, PreservedAnalyses}

abbrev pub ResultOpcodeCounter : Type 0
ResultOpcodeCounter = List (String × ℕ)

-- A missing name starts with 1, one that is there counts up by 1; `OpcodeMap[k]` starts with 0.
unfoldable pub count_opcode : String → ResultOpcodeCounter → ResultOpcodeCounter
count_opcode name m = elim (find name m) [
  | none ↦ modify name 0 (λ n. 1) m
  | some n ↦ modify name 0 (λ k. wrap_unsigned (k + 1)) m
]

module _ (get_opcode_name : Opcode → String) where
  unfoldable pub count_block : List Instruction → ResultOpcodeCounter → ResultOpcodeCounter
  count_block [] m = m
  count_block (i ∷ is) m = count_block is (count_opcode (get_opcode_name i.opcode) m)

  unfoldable pub count_blocks : List BasicBlock → ResultOpcodeCounter → ResultOpcodeCounter
  count_blocks [] m = m
  count_blocks (b ∷ bs) m = count_blocks bs (count_block b.instructions m)

  unfoldable pub generate_opcode_map : List BasicBlock → ResultOpcodeCounter
  generate_opcode_map bs = count_blocks bs []
