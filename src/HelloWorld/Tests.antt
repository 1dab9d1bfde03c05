-- ===== src/HelloWorld/Tests.antt =====
-- LogReturn on a function with one return; the address of the message is a constant here.
use llvm_tutor.Prelude.{ℕ, ◌≡◌, refl, false, List, [], ◌∷◌, arith}
use llvm_tutor.Prelude.Containers.{string_eq}
use llvm_tutor.Ir.{global, void_ty, ret, Instruction, Function, Module}
use llvm_tutor.Builder.{Build}
use llvm_tutor.Inject.{find_function}
use llvm_tutor.Inject.Erasure.{erase_blocks}
use llvm_tutor.HelloWorld.{
  get_or_insert_log, log_call, log_returns, log_all_returns, log_return_run,
}
use llvm_tutor.HelloWorld.Kept.{IsFresh, log_return_run-erased}
use llvm_tutor.Ir.{int_ty}
use llvm_tutor.HelloWorld.Visitor.{visitor}

-- The address of a global's first byte is the global.
abbrev constant_gep : ℕ → Build
constant_gep msg n = record { value = global msg; code = []; next = n }

constant_gep-IsFresh : (msg : ℕ) → IsFresh (constant_gep msg)
constant_gep-IsFresh msg = record { code = λ n. _; grows = λ n. omega arith }

abbrev return : Instruction
return = record { id = 5; opcode = ret; ty = void_ty; operands = [] }

abbrev foo : List Instruction → Function
foo is = record {
  id = 1;
  name = "foo";
  args = [];
  blocks = record { label = 0; instructions = is } ∷ [];
  opt_none = false;
}

abbrev sample : Module
sample = record { functions = foo (return ∷ []) ∷ []; globals = [] }

logged :
    (log_return_run constant_gep 9 20 sample (foo (return ∷ []))).blocks
    ≡ (foo (log_call 20 9 (global 0) ∷ return ∷ [])).blocks
unfolding find_function get_or_insert_log log_returns log_all_returns log_return_run
logged = refl

log_return_run-erased_example :
    erase_blocks 20 (log_return_run constant_gep 9 20 sample (foo (return ∷ []))).blocks
    ≡ (foo (return ∷ [])).blocks
log_return_run-erased_example =
    log_return_run-erased constant_gep 9 20 sample (foo (return ∷ [])) constant_gep-IsFresh
      ((refl, _), _)

abbrev two_args : Function
two_args = record {
  id = 0;
  name = "foo";
  args = int_ty 32 ∷ int_ty 32 ∷ [];
  blocks = [];
  opt_none = false;
}

visited :
    visitor (λ n. "2") (λ f. "i32") two_args
    ≡ "(llvm-tutor) Hello from: foo\n(llvm-tutor)   number of arguments: 2\n(llvm-tutor) func return type:i32\n"
unfolding visitor
visited = refl
