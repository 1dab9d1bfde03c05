-- ===== src/Inject/Tests.antt =====
-- InjectFuncCall on a module with one function of one i32 argument.
use llvm_tutor.Prelude.{ℕ, ◌≡◌, refl, false, List, [], ◌∷◌}
use llvm_tutor.Prelude.Containers.{string_eq}
use llvm_tutor.Ir.{argument, int_ty, ret, Instruction, Function, Module}
use llvm_tutor.Inject.{
  pointer_ty, global_index, set_initializer, initialized_global, find_function,
  get_or_insert_printf, hello_call, printf_call, insert_at_top, say_hello, say_hello_all, log_block,
  log_blocks, log_functions, has_definition, run_on_module,
}
use llvm_tutor.Inject.Erasure.{erase_functions}
use llvm_tutor.Inject.Erase.{run_on_module-erased}
use llvm_tutor.Inject.Logged.{AreLogged, run_on_module-AreLogged}

abbrev return : Instruction
return = record { id = 5; opcode = ret; ty = int_ty 32; operands = argument 0 ∷ [] }

abbrev foo : List Instruction → Function
foo is = record {
  id = 1;
  name = "foo";
  args = int_ty 32 ∷ [];
  blocks = record { label = 0; instructions = is } ∷ [];
  opt_none = false;
}

abbrev sample : Module
sample = record { functions = foo (return ∷ []) ∷ []; globals = [] }

-- Globals 0 and 2 are the format strings, 1 and 3 the names; 9 is the new printf.
injected : (run_on_module 9 20 sample).output.functions ≡ (
    foo (hello_call 9 0 (foo []) 20 1 ∷ printf_call 21 9 2 3 (argument 0) ∷ return ∷ [])
    ∷ record { id = 9; name = "printf"; args = pointer_ty ∷ []; blocks = []; opt_none = false }
    ∷ [])
unfolding global_index set_initializer initialized_global find_function get_or_insert_printf
    insert_at_top say_hello say_hello_all log_block log_blocks log_functions has_definition
    run_on_module
injected = refl

run_on_module-erased_example :
    erase_functions 20 (run_on_module 9 20 sample).output.functions
    ≡ (get_or_insert_printf 9 sample.functions).1
run_on_module-erased_example = run_on_module-erased 20 9 sample (((refl, _), _), _)

run_on_module-AreLogged_example :
    (format : ℕ) × AreLogged
      (get_or_insert_printf 9 sample.functions).0
      format
      (run_on_module 9 20 sample).output.functions
run_on_module-AreLogged_example = run_on_module-AreLogged 9 20 sample
