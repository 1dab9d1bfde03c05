-- ===== src/Mba/Add.antt =====
-- lib/MBAAdd.cpp: a + b on i8 becomes (((a ^ b) + 2 * (a & b)) * 39 + 23) * 151 + 111.
pub mod Correct
use llvm_tutor.Prelude.{ℕ, Bool, true, false, Option, none, some, List, ◌==◌, ◌&&◌, if◌then◌else◌}
use llvm_tutor.Ir.{
  Value, constant_int, Ty, int_ty, void_ty, double_ty, other_ty, BinaryOp, add, sub, mul, and, or,
  xor, fsub, other_binary, Instruction,
}
use llvm_tutor.Builder.{Build, IrBuilder, ◌>>=◌}
use llvm_tutor.Mba.Rewrite.{Replacement, Rewriter, binary_operands}

abbrev pub is_add : BinaryOp → Bool
is_add add = true
is_add _ = false

-- isIntegerTy() and getIntegerBitWidth() == 8.
abbrev pub is_i8 : Ty → Bool
is_i8 (int_ty w) = w == 8
is_i8 _ = false

-- The three `continue`s of the loop.
unfoldable pub mba_add_candidate : Instruction → Option (Value × Value)
mba_add_candidate i = elim (binary_operands i.opcode i.operands) [
  | none ↦ none
  | some (op, l, r) ↦ if is_add op && is_i8 i.ty then some (l, r) else none
]

-- ConstantInt::get(BinOp->getType(), n): a value exists of an integer type alone.
abbrev pub const_of : Ty → ℕ → Value
const_of (int_ty w) n = constant_int w n
const_of _ n = constant_int 0 n

-- e0 + e1, with e0 = a ^ b and e1 = 2 * (a & b). The order in which C++ evaluates the two
-- arguments of CreateAdd is unspecified, hence the flag.
unfoldable pub mba_add_sum : IrBuilder → Bool → Ty → Value → Value → Build
mba_add_sum b true ty l r = do
  e0 ← b.create xor ty l r
  c ← b.create and ty l r
  e1 ← b.create mul ty (const_of ty 2) c
  b.create add ty e0 e1
mba_add_sum b false ty l r = do
  c ← b.create and ty l r
  e1 ← b.create mul ty (const_of ty 2) c
  e0 ← b.create xor ty l r
  b.create add ty e0 e1

-- e5 = (e2 * 39 + 23) * 151.
unfoldable pub mba_add_e5 : IrBuilder → Bool → Ty → Value → Value → Build
mba_add_e5 b xor_first ty l r = do
  e2 ← mba_add_sum b xor_first ty l r
  e3 ← b.create mul ty (const_of ty 39) e2
  e4 ← b.create add ty (const_of ty 23) e3
  b.create mul ty (const_of ty 151) e4

-- The new instruction is BinaryOperator::CreateAdd(Val111, e5).
unfoldable pub mba_add_replacement : IrBuilder → Bool → Ty → Value → Value → ℕ → Replacement
mba_add_replacement b xor_first ty l r n =
    let e5 = mba_add_e5 b xor_first ty l r n in
    record { lhs = const_of ty 111; rhs = e5.value; code = e5.code; next = e5.next }

abbrev pub mba_add : IrBuilder → Bool → Rewriter
mba_add b xor_first = record {
  candidate = mba_add_candidate;
  replacement = mba_add_replacement b xor_first;
}
