-- ===== src/Mba/Sub.antt =====
-- lib/MBASub.cpp: a - b on any integer type becomes (a + ~b) + 1.
pub mod Correct
use llvm_tutor.Prelude.{ℕ, Bool, true, false, Option, none, some, List, ◌&&◌, if◌then◌else◌}
use llvm_tutor.Ir.{Value, Ty, is_integer_ty, BinaryOp, add, sub, Instruction}
use llvm_tutor.Builder.{Build, IrBuilder, ◌>>=◌}
use llvm_tutor.Mba.Rewrite.{Replacement, Rewriter, binary_operands}
use llvm_tutor.Mba.Add.{const_of}

abbrev pub is_sub : BinaryOp → Bool
is_sub sub = true
is_sub _ = false

-- The two `continue`s of the loop.
unfoldable pub mba_sub_candidate : Instruction → Option (Value × Value)
mba_sub_candidate i = elim (binary_operands i.opcode i.operands) [
  | none ↦ none
  | some (op, l, r) ↦ if is_sub op && is_integer_ty i.ty then some (l, r) else none
]

-- Builder.CreateAdd(a, Builder.CreateNot(b)).
unfoldable pub mba_sub_sum : IrBuilder → Ty → Value → Value → Build
mba_sub_sum b ty l r = do c ← b.create_not ty r; b.create add ty l c

-- The new instruction is BinaryOperator::CreateAdd(sum, 1).
unfoldable pub mba_sub_replacement : IrBuilder → Ty → Value → Value → ℕ → Replacement
mba_sub_replacement b ty l r n =
    let sum = mba_sub_sum b ty l r n in
    record { lhs = sum.value; rhs = const_of ty 1; code = sum.code; next = sum.next }

abbrev pub mba_sub : IrBuilder → Rewriter
mba_sub b = record { candidate = mba_sub_candidate; replacement = mba_sub_replacement b }
