-- ===== src/StaticCalls/Tests.antt =====
-- StaticCallCounter on a module with a declaration, a function that calls it twice, and an indirect call.
use llvm_tutor.Prelude.{◌≡◌, ◌||◌, refl, false, none, some, [], ◌∷◌, wrap_unsigned}
use llvm_tutor.Prelude.Containers.{nat_eq, find, lookup, modify, contains, insert}
use llvm_tutor.Ir.{void_ty, Opcode, call_base, ret, Instruction, Module}
use llvm_tutor.StaticCalls.{
  ResultCaller, count_call, visit_instruction, visit_block, visit_blocks, visit_functions,
  run_on_module,
}
use llvm_tutor.StaticCalls.Correct.{
  calls_in_functions, calls_from, run_on_module-counts, run_on_module-callers,
}

abbrev inst : Opcode → Instruction
inst op = record { id = 0; opcode = op; ty = void_ty; operands = [] }

abbrev sample : Module
sample = record {
  functions =
      record { id = 1; name = "puts"; args = []; blocks = []; opt_none = false }
      ∷ record {
        id = 2;
        name = "main";
        args = [];
        blocks =
            record {
              label = 0;
              instructions =
                  inst (call_base (some 1) false)
                  ∷ inst (call_base none false)
                  ∷ inst (call_base (some 1) false)
                  ∷ inst ret
                  ∷ [];
            }
            ∷ [];
        opt_none = false;
      }
      ∷ [];
  globals = [];
}

abbrev old : ResultCaller
old = (9, 8 ∷ []) ∷ []

-- The callers that an earlier run found are still there.
counted :
    run_on_module old sample
    ≡ record { res = (1, 2) ∷ []; caller_result = (9, 8 ∷ []) ∷ (1, 2 ∷ []) ∷ [] }
unfolding count_call visit_instruction visit_block visit_blocks visit_functions run_on_module find
    modify insert
counted = refl

run_on_module-counts_example :
    lookup 1 0 (run_on_module old sample).res
    ≡ wrap_unsigned (calls_in_functions 1 sample.functions)
run_on_module-counts_example = run_on_module-counts old sample 1

run_on_module-callers_example :
    contains (lookup 1 [] (run_on_module old sample).caller_result) 2
    ≡ (calls_from 1 2 sample.functions || contains (lookup 1 [] old) 2)
run_on_module-callers_example = run_on_module-callers old sample 1 2
