-- ===== src/DuplicateBb/Clone/Sample.antt =====
-- A machine, LLVM's functions and a function of two blocks, an addition and a store, then a PHI node,
-- for the tests of lib/DuplicateBB.cpp.
use llvm_tutor.Prelude.{
  ℕ, ◌+◌, ◌==◌, ◌≡◌, ◌⊎◌, refl, if◌then◌else◌, inr, Option, none, some, List, [], ◌∷◌, arith,
}
use llvm_tutor.Prelude.Containers.{nat_eq}
use llvm_tutor.Ir.{
  Value, value_eq, argument, instruction, basic_block, constant_int, Ty, int_ty, void_ty, Opcode,
  binary, add, phi, br, ret, other, Instruction, BasicBlock,
}
use llvm_tutor.Builder.{Build}
use llvm_tutor.Machine.Exec.{Machine, State, step, exec}
use llvm_tutor.Machine.Flow.{Terminators, IsBranching}
use llvm_tutor.DuplicateBb.Clone.{Utils, DupState}
use llvm_tutor.DuplicateBb.Clone.Documented.{documented_split, IsDocumented}

-- The world counts stores, `other 1`; the test of a value is `other 0`.
abbrev pub count_stores : Opcode → Ty → List ℕ → ℕ → ℕ × ℕ
count_stores (other k) ty vals w = (0, if k == 1 then w + 1 else w)
count_stores op ty vals w = (0, w)

abbrev pub machine : Machine ℕ
machine = record { leaf = λ v. 7; other = count_stores; target = λ w. none }

-- A branch with two targets goes to the second.
abbrev pub last_label : List ℕ → Option ℕ
last_label [] = none
last_label (l ∷ []) = some l
last_label (k ∷ l ∷ ls) = some l

abbrev pub leave : Terminators ℕ
leave br ty vals ls w = record { value = 0; world = w; target = last_label ls }
leave op ty vals ls w = record { value = 0; world = w; target = none }

pub branching : IsBranching leave
branching = record {
  br_world = λ ty vals ls w. refl;
  br_one = λ ty vals l w. refl;
  br_two = λ ty vals k l w. inr refl;
}

abbrev pub is_null : Value → Build
is_null v n = record {
  value = instruction n;
  code = record { id = n; opcode = other 0; ty = int_ty 1; operands = v ∷ [] } ∷ [];
  next = n + 1;
}

abbrev pub utils : Utils
utils = record { create_is_null = is_null; split = documented_split }

pub documented : IsDocumented machine utils
unfolding exec step
documented = record {
  split_law = λ c l b a o x n. refl;
  is_null_next = λ v n. omega arith;
  is_null_value = λ v n vs. refl;
  is_null_operands = λ Q v n h f. (f n (omega arith) (omega arith), ((h, tt), tt));
  is_null_plain = λ v n. (refl, tt);
  is_null_keeps = λ v n s. record { registers = λ j h. ground arith; same_world = refl };
}

abbrev pub sum : Instruction
sum = record {
  id = 1;
  opcode = binary add;
  ty = int_ty 32;
  operands = argument 0 ∷ constant_int 32 1 ∷ [];
}

abbrev pub store : Instruction
store = record { id = 2; opcode = other 1; ty = void_ty; operands = instruction 1 ∷ [] }

abbrev pub jump : Instruction
jump = record { id = 3; opcode = br; ty = void_ty; operands = basic_block 1 ∷ [] }

abbrev pub merge : Instruction
merge = record { id = 4; opcode = phi (0 ∷ []); ty = int_ty 32; operands = instruction 1 ∷ [] }

abbrev pub return : Instruction
return = record { id = 5; opcode = ret; ty = void_ty; operands = instruction 4 ∷ [] }

abbrev pub entry : BasicBlock
entry = record { label = 0; instructions = sum ∷ store ∷ jump ∷ [] }

abbrev pub exit : BasicBlock
exit = record { label = 1; instructions = merge ∷ return ∷ [] }

abbrev pub two_blocks : List BasicBlock
two_blocks = entry ∷ exit ∷ []

abbrev pub Used : ℕ → Type 0
Used j = (j ≡ 1) ⊎ (j ≡ 4)

abbrev pub start : DupState
start = record {
  blocks = two_blocks;
  next_label = 3;
  next_id = 6;
  re_mapper = [];
  duplicate_bb_count = 0;
}

abbrev pub nothing : State ℕ
nothing = record { regs = λ j. 0; world = 0 }
