-- ===== src/Machine/Exec.antt =====
-- Execution of a list of instructions over registers and a world.
use Prim.Native.Nat.{bit_and, bit_or, bit_xor}
use llvm_tutor.Prelude.{
  ℕ, ◌+◌, ◌-◌, ◌*◌, ◌%◌, ◌^◌, ◌==◌, if◌then◌else◌, ◌≡◌, refl, Option, none, some, List, [], ◌∷◌,
  ◌++◌,
}
use llvm_tutor.Ir.{
  Value, instruction, constant_int, Ty, int_ty, BinaryOp, add, sub, mul, and, or, xor, fsub,
  other_binary, Opcode, binary, Instruction,
}

-- The result of an operation on iw; none for the operations that are left to the machine.
abbrev pub integer_result : BinaryOp → ℕ → ℕ → ℕ → Option ℕ
integer_result add w a b = some ((a + b) % 2 ^ w)
integer_result sub w a b = some ((a + (2 ^ w - b % 2 ^ w)) % 2 ^ w)
integer_result mul w a b = some (a * b % 2 ^ w)
integer_result and w a b = some (bit_and a b % 2 ^ w)
integer_result or w a b = some (bit_or a b % 2 ^ w)
integer_result xor w a b = some (bit_xor a b % 2 ^ w)
integer_result fsub w a b = none
integer_result (other_binary k) w a b = none

-- `leaf` gives the values that are no instructions; `other` executes what is no integer operation,
-- and `target` reads off the world where control goes at the end of a block.
pub record Machine (W : Type 0) : Type 0 where
  pub leaf : Value → ℕ
  pub other : Opcode → Ty → List ℕ → W → ℕ × W
  pub target : W → Option ℕ

pub record State (W : Type 0) : Type 0 where
  pub regs : ℕ → ℕ
  pub world : W

abbrev pub update : (ℕ → ℕ) → ℕ → ℕ → ℕ → ℕ
update f k v j = if k == j then v else f j

module _ {W : Type 0} (m : Machine W) where
  abbrev pub value_of : (ℕ → ℕ) → Value → ℕ
  value_of regs (instruction i) = regs i
  value_of regs (constant_int w n) = n % 2 ^ w
  value_of regs v = m.leaf v

  abbrev pub result : Opcode → Ty → List ℕ → W → ℕ × W
  result (binary op) (int_ty w) (a ∷ b ∷ []) s = elim (integer_result op w a b) [
    | some x ↦ (x, s)
    | none ↦ m.other (binary op) (int_ty w) (a ∷ b ∷ []) s
  ]
  result op ty vals s = m.other op ty vals s

  abbrev pub operand_values : (ℕ → ℕ) → List Value → List ℕ
  operand_values regs [] = []
  operand_values regs (v ∷ vs) = value_of regs v ∷ operand_values regs vs

  unfoldable pub step : Instruction → State W → State W
  step i s =
      let out = result i.opcode i.ty (operand_values s.regs i.operands) s.world in
      record { regs = update s.regs i.id out.0; world = out.1 }

  unfoldable pub exec : List Instruction → State W → State W
  exec [] s = s
  exec (i ∷ is) s = exec is (step i s)

  pub exec-append :
      (xs ys : List Instruction) (s : State W) → exec (xs ++ ys) s ≡ exec ys (exec xs s)
  unfolding exec
  exec-append [] ys s = refl
  exec-append (x ∷ xs) ys s = exec-append xs ys (step x s)
