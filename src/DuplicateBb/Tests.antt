-- ===== src/DuplicateBb/Tests.antt =====
-- findBBsToDuplicate on two blocks in a row, the first of the reachable values drawn each time.
use llvm_tutor.Prelude.{ℕ, ◌≤◌, ◌≡◌, refl, true, false, none, some, List, [], ◌∷◌, All, arith}
use llvm_tutor.Prelude.Containers.{nat_eq, insert, insert_range, modify, lookup, find}
use llvm_tutor.Ir.{
  value_eq, same_value, global, instruction, int_ty, binary, add, Instruction, Function,
  GlobalVariable,
}
use llvm_tutor.Riv.{
  nil, cons, Node, RivResult, insert_defined, defined_values, entry_values, visit_children,
  build_riv,
}
use llvm_tutor.Riv.Spec.{count_in, strict_dominators, by_path}
use llvm_tutor.Riv.Defined.{defines, is_entry_value}
use llvm_tutor.Riv.Correct.{tree}
use llvm_tutor.DuplicateBb.{starts_with_pad, advance, is_global_value, find_bbs_to_duplicate}
use llvm_tutor.DuplicateBb.Chosen.{find_bbs_to_duplicate-dominated}

abbrev sum : ℕ → Instruction
sum i = record { id = i; opcode = binary add; ty = int_ty 32; operands = [] }

abbrev two_blocks : Function
two_blocks = record {
  id = 0;
  name = "foo";
  args = [];
  blocks =
      record { label = 0; instructions = sum 10 ∷ [] }
      ∷ record { label = 1; instructions = sum 11 ∷ [] }
      ∷ [];
  opt_none = false;
}

abbrev one_global : List GlobalVariable
one_global = record { name = "y"; value_ty = int_ty 8; initializer = none } ∷ []

abbrev root : Node
root = record { block = 0; children = cons 1 nil nil }

abbrev reachable : RivResult
reachable = (0, global 0 ∷ []) ∷ (1, instruction 10 ∷ global 0 ∷ []) ∷ []

abbrev first : ℕ → ℕ → ℕ
first k count = 0

-- The global is skipped; the value of block 0 is chosen for block 1.
chosen : find_bbs_to_duplicate first reachable 0 two_blocks.blocks ≡ ((1, instruction 10) ∷ [])
unfolding find_bbs_to_duplicate starts_with_pad advance lookup find
chosen = refl

riv_reachable : build_riv one_global two_blocks 0 root ≡ some reachable
unfolding build_riv defined_values insert_defined entry_values visit_children insert insert_range
    modify lookup find same_value
riv_reachable = refl

each_once : (k : ℕ) → count_in (tree root) k ≤ 1
unfolding count_in
each_once k = ground arith

find_bbs_to_duplicate-dominated_example :
    All
      (λ p.
        (by_path
            (defines two_blocks.blocks)
            (strict_dominators (tree root) p.0)
            (is_entry_value one_global two_blocks.args)
            p.1
          ≡ true)
        × (is_global_value p.1 ≡ false))
      (find_bbs_to_duplicate first reachable 0 two_blocks.blocks)
find_bbs_to_duplicate-dominated_example =
    find_bbs_to_duplicate-dominated first one_global two_blocks root reachable riv_reachable
      each_once
