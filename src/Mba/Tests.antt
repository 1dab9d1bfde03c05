-- ===== src/Mba/Tests.antt =====
-- Runs of MBAAdd and MBASub on small functions.
use llvm_tutor.Prelude.{ℕ, ◌≡◌, refl, true, none, List, [], ◌∷◌, arith}
use llvm_tutor.Ir.{
  Value, argument, instruction, constant_int, int_ty, void_ty, BinaryOp, add, sub, mul, and, xor,
  binary, ret, Instruction, BasicBlock, PreservedAnalyses,
}
use llvm_tutor.Machine.Exec.{Machine, State}
use llvm_tutor.Machine.Function.{exec_function, ResultAgrees}
use llvm_tutor.Builder.{◌>>=◌}
use llvm_tutor.Builder.Folding.{folding_builder, folding_builder-IsSound}
use llvm_tutor.Mba.Rewrite.{run, run_on_blocks, run_on_basic_block}
use llvm_tutor.Mba.Rewrite.Program.{run_counts, run_unchanged}
use llvm_tutor.Mba.Add.{mba_add, mba_add_candidate, mba_add_replacement, mba_add_e5, mba_add_sum}
use llvm_tutor.Mba.Add.Correct.{mba_add-preserves}
use llvm_tutor.Mba.Sub.{mba_sub, mba_sub_candidate}
use llvm_tutor.Mba.Sub.Correct.{mba_sub-preserves}

abbrev op : ℕ → BinaryOp → ℕ → Value → Value → Instruction
op i o w l r = record { id = i; opcode = binary o; ty = int_ty w; operands = l ∷ r ∷ [] }

abbrev return : ℕ → Value → Instruction
return i v = record { id = i; opcode = ret; ty = void_ty; operands = v ∷ [] }

-- %0 = add i8 %a, %b; %1 = sub i32 %0, 7; %2 = add i16 %a, %b; ret %1
abbrev body : List BasicBlock
body =
    record {
      label = 0;
      instructions =
          op 0 add 8 (argument 0) (argument 1)
          ∷ op 1 sub 32 (instruction 0) (constant_int 32 7)
          ∷ op 2 add 16 (argument 0) (argument 1)
          ∷ return 3 (instruction 1)
          ∷ [];
    }
    ∷ []

-- The world is the value returned last; every argument is 200, and `ret` leaves the function.
abbrev machine : Machine ℕ
machine = record {
  leaf = λ v. 200;
  other = λ o t vs w. elim vs [ [] ↦ (0, w) | v ∷ _ ↦ (0, v) ];
  target = λ w. none;
}

abbrev start : State ℕ
start = record { regs = λ i. 0; world = 0 }

mba_add-preserves_example :
    ResultAgrees 4
      (exec_function machine 9 (run (mba_add folding_builder true) 4 body).0 0 start)
      (exec_function machine 9 body 0 start)
mba_add-preserves_example =
    mba_add-preserves machine folding_builder (folding_builder-IsSound machine) true 4 body
      (omega arith) 9 0 start

mba_sub-preserves_example :
    ResultAgrees 4
      (exec_function machine 9 (run (mba_sub folding_builder) 4 body).0 0 start)
      (exec_function machine 9 body 0 start)
mba_sub-preserves_example =
    mba_sub-preserves machine folding_builder (folding_builder-IsSound machine) 4 body (omega arith)
      9 0 start

-- Only the i8 addition is replaced, by the seven instructions of the formula.
mba_add_run :
    (run_on_basic_block
      (mba_add folding_builder true)
      4
      (op 0 add 8 (argument 0) (argument 1) ∷ op 2 add 16 (argument 0) (argument 1) ∷ [])).code
    ≡ op 4 xor 8 (argument 0) (argument 1)
      ∷ op 5 and 8 (argument 0) (argument 1)
      ∷ op 6 mul 8 (constant_int 8 2) (instruction 5)
      ∷ op 7 add 8 (instruction 4) (instruction 6)
      ∷ op 8 mul 8 (constant_int 8 39) (instruction 7)
      ∷ op 9 add 8 (constant_int 8 23) (instruction 8)
      ∷ op 10 mul 8 (constant_int 8 151) (instruction 9)
      ∷ op 0 add 8 (constant_int 8 111) (instruction 10)
      ∷ op 2 add 16 (argument 0) (argument 1)
      ∷ []
unfolding run_on_basic_block mba_add_candidate mba_add_replacement mba_add_e5 mba_add_sum ◌>>=◌
mba_add_run = refl

run_counts_example :
    ((run_on_blocks (mba_sub folding_builder) 4 body).subst_count ≡ 1)
    × ((run (mba_sub folding_builder) 4 body).1 ≡ PreservedAnalyses.none_preserved)
unfolding mba_sub_candidate
run_counts_example = run_counts (mba_sub folding_builder) 4 body

-- A function with no i8 addition.
abbrev plain : List BasicBlock
plain = record { label = 0; instructions = op 2 add 16 (argument 0) (argument 1) ∷ [] } ∷ []

run-plain : (run (mba_add folding_builder true) 4 plain).1 ≡ PreservedAnalyses.all_preserved
unfolding run run_on_blocks run_on_basic_block mba_add_candidate
run-plain = refl

run_unchanged_example : (run (mba_add folding_builder true) 4 plain).0 ≡ plain
run_unchanged_example = run_unchanged (mba_add folding_builder true) 4 plain run-plain
