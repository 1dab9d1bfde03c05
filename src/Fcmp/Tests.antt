-- ===== src/Fcmp/Tests.antt =====
-- ConvertFCmpEq on one comparison, with a builder that emits every operation.
use llvm_tutor.Prelude.{◌+◌, ◌≡◌, refl, true, false, ◌⊎◌, List, [], ◌∷◌}
use llvm_tutor.Ir.{
  Value, argument, instruction, constant, Ty, int_ty, double_ty, fcmp_oeq, fcmp_olt, Opcode, binary,
  fcmp, bit_cast, ret, fsub, and, Instruction, BasicBlock, PreservedAnalyses,
}
use llvm_tutor.Builder.{Build, ◌>>=◌}
use llvm_tutor.Fcmp.{
  is_equality, find_in_block, find_fcmp_eq, convert_predicate, FcmpBuilder, sign_mask, epsilon_bits,
  abs_difference, convert_operands, convert_fcmp_eq_instruction, convert_in_block,
  convert_in_blocks, convert_all, convert_run, convert_pass,
}
use llvm_tutor.Fcmp.Predicates.{unordered, holds, up_to_epsilon, convert_predicate-holds}
use llvm_tutor.Fcmp.Attempt.{IsQuiet}
use llvm_tutor.Fcmp.Pass.{convert_pass-none_left, convert_pass-preserved}
use Prim.Native.String.{String, ◌++◌ as append}
use llvm_tutor.Prelude.{ℕ, All}
use llvm_tutor.Ir.{Function}
use llvm_tutor.Printf.Prints.{PrintsAfter}
use llvm_tutor.Fcmp.Printer.{
  IsEqualityComparison, fcmp_lines, print_fcmp_eq_instructions, printer_run, line,
  printer_run-lines,
}

unfoldable emit : Opcode → Ty → List Value → Build
emit op ty vs n = record {
  value = instruction n;
  code = record { id = n; opcode = op; ty = ty; operands = vs } ∷ [];
  next = n + 1;
}

abbrev builder : FcmpBuilder
builder = record {
  create_fsub = λ l r. emit (binary fsub) double_ty (l ∷ r ∷ []);
  create_bit_cast = λ v t. emit bit_cast t (v ∷ []);
  create_and = λ l r. emit (binary and) (int_ty 64) (l ∷ r ∷ []);
  constant_fp = constant;
}

builder-IsQuiet : IsQuiet builder
unfolding emit
builder-IsQuiet = record {
  fsub = λ l r. record { code = λ n. (refl, _) };
  bit_cast = λ v t. record { code = λ n. (refl, _) };
  mask = λ l r. record { code = λ n. (refl, _) };
}

abbrev return : Instruction
return = record { id = 8; opcode = ret; ty = int_ty 1; operands = instruction 7 ∷ [] }

abbrev comparing : List BasicBlock
comparing =
    record {
      label = 0;
      instructions =
          record {
            id = 7;
            opcode = fcmp fcmp_oeq;
            ty = int_ty 1;
            operands = argument 0 ∷ argument 1 ∷ [];
          }
          ∷ return
          ∷ [];
    }
    ∷ []

converted : (convert_pass builder false comparing 20).0.blocks ≡ (
    record {
      label = 0;
      instructions =
          record {
            id = 20;
            opcode = binary fsub;
            ty = double_ty;
            operands = argument 0 ∷ argument 1 ∷ [];
          }
          ∷ record { id = 21; opcode = bit_cast; ty = int_ty 64; operands = instruction 20 ∷ [] }
          ∷ record {
            id = 22;
            opcode = binary and;
            ty = int_ty 64;
            operands = instruction 21 ∷ sign_mask ∷ [];
          }
          ∷ record { id = 23; opcode = bit_cast; ty = double_ty; operands = instruction 22 ∷ [] }
          ∷ record {
            id = 7;
            opcode = fcmp fcmp_olt;
            ty = int_ty 1;
            operands = instruction 23 ∷ constant epsilon_bits ∷ [];
          }
          ∷ return
          ∷ [];
    }
    ∷ [])
unfolding emit is_equality find_in_block find_fcmp_eq convert_predicate abs_difference ◌>>=◌
    convert_operands convert_fcmp_eq_instruction convert_in_block convert_in_blocks convert_all
    convert_run convert_pass
converted = refl

convert_predicate-holds_example :
    holds fcmp_olt unordered ≡ holds fcmp_oeq (up_to_epsilon unordered)
unfolding convert_predicate
convert_predicate-holds_example = convert_predicate-holds fcmp_oeq fcmp_olt unordered refl

convert_pass-none_left_example :
    find_fcmp_eq (convert_pass builder false comparing 20).0.blocks ≡ []
unfolding is_equality
convert_pass-none_left_example =
    convert_pass-none_left builder builder-IsQuiet comparing 20 ((refl, (refl, _)), _)

abbrev idle : List BasicBlock
idle = record { label = 0; instructions = return ∷ [] } ∷ []

idle-preserved : (convert_pass builder false idle 20).1 ≡ PreservedAnalyses.all_preserved
unfolding find_in_block find_fcmp_eq convert_all convert_run convert_pass
idle-preserved = refl

convert_pass-preserved_example :
    ((convert_pass builder false idle 20).0.blocks ≡ idle)
    × ((false ≡ true) ⊎ (find_fcmp_eq idle ≡ []))
convert_pass-preserved_example =
    convert_pass-preserved builder builder-IsQuiet false idle 20 ((refl, _), _) idle-preserved

abbrev comparing_function : Function
comparing_function = record {
  id = 0;
  name = "eq";
  args = double_ty ∷ double_ty ∷ [];
  blocks = comparing;
  opt_none = false;
}

abbrev inst_text : ℕ → String
inst_text i = "  %cmp = fcmp oeq double %a, %b"

printed :
    (printer_run inst_text comparing_function).0
    ≡ "Floating-point equality comparisons in \"eq\":\n  %cmp = fcmp oeq double %a, %b\n"
unfolding printer_run print_fcmp_eq_instructions fcmp_lines find_fcmp_eq find_in_block is_equality
printed = refl

printer_run-lines_example :
    (All (λ b. All (λ i. IsEqualityComparison i → ⊥) b.instructions) comparing
      → (printer_run inst_text comparing_function).0 ≡ "")
    × All
        (λ b.
          All
            (λ i.
              IsEqualityComparison i
              → PrintsAfter
                  (printer_run inst_text comparing_function).0
                  (append "Floating-point equality comparisons in \"" (append "eq" "\":\n"))
                  (line inst_text i))
            b.instructions)
        comparing
printer_run-lines_example = printer_run-lines inst_text comparing_function
