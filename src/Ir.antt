-- ===== src/Ir.antt =====
-- The part of LLVM's intermediate representation that the passes read and write (the classes of
-- llvm/IR that lib/*.cpp include): types, values, instructions, blocks, functions and modules.
-- A pointer to a Value is modelled by what it points to: an argument or a global by its index, an
-- instruction or a block by a number that is its identity. An instruction's operands are listed
-- in LLVM's order: a branch `br %c, %t, %f` holds [%c, %f, %t], a `switch` its condition, its
-- default and then pairs of a case value and a block. The incoming blocks of a PHI node are no
-- operands, and stand in its opcode.
pub mod Query
pub mod Described
use Prim.Native.String.{String}
use llvm_tutor.Prelude.{ℕ, ◌≡◌, Bool, true, false, Option, List, ◌↔◌, arith, ◌==◌, ◌&&◌}
use llvm_tutor.Prelude.Containers.{Eq}

-- `constant_int w n` is the iw constant n; `constant` stands for any other constant.
pub data Value : Type 0 where
  argument global instruction basic_block function constant : ℕ → Value
  constant_int : ℕ → ℕ → Value

-- The comparison of two pointers to values.
unfoldable pub same_value : Value → Value → Bool
same_value (argument a) (argument b) = a == b
same_value (global a) (global b) = a == b
same_value (instruction a) (instruction b) = a == b
same_value (basic_block a) (basic_block b) = a == b
same_value (function a) (function b) = a == b
same_value (constant a) (constant b) = a == b
same_value (constant_int w a) (constant_int v b) = w == v && a == b
same_value _ _ = false

pub same_value_iff : (a b : Value) → (same_value a b ≡ true) ↔ (a ≡ b)
unfolding same_value
same_value_iff (argument a) (argument b) = ground arith
same_value_iff _ _ = ground arith

instance abbrev pub value_eq : Eq Value
value_eq = record { beq = same_value; beq_iff = same_value_iff }

-- `int_ty w` is iw; `other_ty` stands for all types that no pass asks about.
pub data Ty : Type 0 where
  int_ty : ℕ → Ty
  void_ty double_ty : Ty
  other_ty : ℕ → Ty

abbrev pub is_integer_ty : Ty → Bool
is_integer_ty (int_ty w) = true
is_integer_ty void_ty = false
is_integer_ty double_ty = false
is_integer_ty (other_ty k) = false

-- The opcodes of BinaryOperator; `other_binary` stands for divisions, shifts and the like.
pub data BinaryOp : Type 0 where
  add sub mul and or xor fsub : BinaryOp
  other_binary : ℕ → BinaryOp

-- CmpInst::Predicate, the floating-point half.
pub data Predicate : Type 0 where
  fcmp_false fcmp_oeq fcmp_ogt fcmp_oge fcmp_olt fcmp_ole fcmp_one fcmp_ord : Predicate
  fcmp_uno fcmp_ueq fcmp_ugt fcmp_uge fcmp_ult fcmp_ule fcmp_une fcmp_true : Predicate

-- The classes of instructions that a pass tells apart. A call carries what `getCalledFunction`
-- answers and whether it is a DbgInfoIntrinsic; `other` stands for all other opcodes.
pub data Opcode : Type 0 where
  binary : BinaryOp → Opcode
  fcmp : Predicate → Opcode
  bit_cast : Opcode
  call_base : Option ℕ → Bool → Opcode
  phi : List ℕ → Opcode
  br switch ret landing_pad : Opcode
  other : ℕ → Opcode

pub record Instruction : Type 0 where
  pub id : ℕ
  pub opcode : Opcode
  pub ty : Ty
  pub operands : List Value

pub record BasicBlock : Type 0 where
  pub label : ℕ
  pub instructions : List Instruction

-- A declaration has no blocks. The first block of a definition is its entry.
pub record Function : Type 0 where
  pub id : ℕ
  pub name : String
  pub args : List Ty
  pub blocks : List BasicBlock
  pub opt_none : Bool

-- A constant that a global starts with: the bytes of a string, or an integer.
pub data Initializer : Type 0 where
  string_data : String → Initializer
  int_data : ℕ → Initializer

pub record GlobalVariable : Type 0 where
  pub name : String
  pub value_ty : Ty
  pub initializer : Option Initializer

pub record Module : Type 0 where
  pub functions : List Function
  pub globals : List GlobalVariable

-- What a pass reports about cached analyses: PreservedAnalyses::all() or ::none().
pub data PreservedAnalyses : Type 0 where
  all_preserved none_preserved : PreservedAnalyses
