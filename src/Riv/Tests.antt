-- ===== src/Riv/Tests.antt =====
-- RIV on a function with a diamond: 0 → 1, 0 → 2, 1 → 3, 2 → 3, where 0 dominates all others.
use llvm_tutor.Prelude.{ℕ, ◌≤◌, ◌≡◌, refl, false, none, some, List, [], ◌∷◌, arith}
use llvm_tutor.Prelude.Containers.{nat_eq, contains, insert, insert_range, modify, lookup, find}
use llvm_tutor.Ir.{
  value_eq, same_value, argument, global, instruction, int_ty, double_ty, binary, add, fsub,
  Instruction, Function, GlobalVariable,
}
use llvm_tutor.Riv.{
  nil, cons, Node, RivResult, insert_defined, defined_values, entry_values, visit_children,
  build_riv,
}
use llvm_tutor.Riv.Spec.{count_in, strict_dominators, by_path}
use llvm_tutor.Riv.Defined.{defines, is_entry_value}
use llvm_tutor.Riv.Correct.{tree, build_riv_total, build_riv_exact}
use Prim.Native.String.{String}
use llvm_tutor.Ir.{Value}

abbrev int_inst : ℕ → Instruction
int_inst i = record { id = i; opcode = binary add; ty = int_ty 32; operands = [] }

abbrev fp_inst : ℕ → Instruction
fp_inst i = record { id = i; opcode = binary fsub; ty = double_ty; operands = [] }

abbrev diamond : Function
diamond = record {
  id = 0;
  name = "foo";
  args = int_ty 32 ∷ double_ty ∷ [];
  blocks =
      record { label = 0; instructions = int_inst 10 ∷ fp_inst 11 ∷ [] }
      ∷ record { label = 1; instructions = int_inst 12 ∷ [] }
      ∷ record { label = 2; instructions = [] }
      ∷ record { label = 3; instructions = int_inst 13 ∷ [] }
      ∷ [];
  opt_none = false;
}

abbrev globals : List GlobalVariable
globals =
    record { name = "x"; value_ty = double_ty; initializer = none }
    ∷ record { name = "y"; value_ty = int_ty 8; initializer = none }
    ∷ []

abbrev root : Node
root = record { block = 0; children = cons 1 nil (cons 2 nil (cons 3 nil nil)) }

abbrev result : RivResult
result =
    (0, global 1 ∷ argument 0 ∷ [])
    ∷ (1, instruction 10 ∷ global 1 ∷ argument 0 ∷ [])
    ∷ (2, instruction 10 ∷ global 1 ∷ argument 0 ∷ [])
    ∷ (3, instruction 10 ∷ global 1 ∷ argument 0 ∷ [])
    ∷ []

riv_run : build_riv globals diamond 0 root ≡ some result
unfolding build_riv defined_values insert_defined entry_values visit_children insert insert_range
    modify lookup find same_value
riv_run = refl

once : (k : ℕ) → count_in (tree root) k ≤ 1
unfolding count_in
once k = ground arith

build_riv_total_example : (r : RivResult) × (build_riv globals diamond 0 root ≡ some r)
build_riv_total_example = build_riv_total globals diamond 0 root

build_riv_exact_example :
    contains (lookup 3 [] result) (instruction 10)
    ≡ by_path
        (defines diamond.blocks)
        (strict_dominators (tree root) 3)
        (is_entry_value globals diamond.args)
        (instruction 10)
build_riv_exact_example =
    build_riv_exact globals diamond root result riv_run once 3 (instruction 10)

-- The instruction of block 1 is not visible after the merge.
not_through_merge : contains (lookup 3 [] result) (instruction 12) ≡ false
unfolding contains lookup find same_value
not_through_merge = refl

abbrev block_name : ℕ → String
block_name l = "%block"

abbrev value_text : Value → String
value_text v = "i32 %x"
