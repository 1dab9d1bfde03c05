-- ===== src/StaticMain/Tests.antt =====
-- The program on a file that can be read, and on one that cannot.
use Prim.Native.String.{String, ◌++◌ as append}
use llvm_tutor.Prelude.{
  ℕ, zero, suc, some, arith, false, ◌≡◌, refl, [], ◌∷◌, if◌then◌else◌, wrap_unsigned,
}
use llvm_tutor.Prelude.Containers.{nat_eq, string_eq, ◌===◌, find, modify, insert}
use llvm_tutor.Ir.{void_ty, Opcode, call_base, ret, Instruction, Function, Module}
use llvm_tutor.Printf.{spaces, pad, title_row}
use llvm_tutor.Printf.Prints.{Prints}
use llvm_tutor.StaticCalls.{
  count_call, visit_instruction, visit_block, visit_blocks, visit_functions, run_on_module,
}
use llvm_tutor.StaticCalls.Correct.{calls_in_functions, calls_in_blocks, calls_in_block}
use llvm_tutor.StaticCalls.Printer.{
  get_name, name_rows, static_header, caller_names, caller_maps, caller_part,
  print_static_cc_result, printer_run,
}
use llvm_tutor.StaticMain.{Parsed, parse_error, parsed, count_static_calls, main, main-counts}

abbrev inst : Opcode → Instruction
inst op = record { id = 0; opcode = op; ty = void_ty; operands = [] }

abbrev puts : Function
puts = record { id = 1; name = "puts"; args = []; blocks = []; opt_none = false }

abbrev caller : Function
caller = record {
  id = 2;
  name = "main";
  args = [];
  blocks =
      record { label = 0; instructions = inst (call_base (some 1) false) ∷ inst ret ∷ [] } ∷ [];
  opt_none = false;
}

abbrev sample : Module
sample = record { functions = puts ∷ caller ∷ []; globals = [] }

-- Numbers as strokes.
abbrev strokes : ℕ → String
strokes zero = ""
strokes (suc n) = append "|" (strokes n)

abbrev row : String → ℕ → String
row name n = append name (append " " (append (strokes n) "\n"))

abbrev read_file : String → Parsed
read_file input =
    if input === "sample.bc" then parsed sample else parse_error "expected top-level entity\n"

printed :
    (main row read_file "sample.bc").errs
    ≡ "=================================================\nLLVM-TUTOR: static analysis results\n=================================================\nNAME                 #N DIRECT CALLS\n-------------------------------------------------\nputs |\n------------CallerMaps\nCalleeputs                 Called From\nmain                 \n-------------------------------------------------\n\n"
unfolding main count_static_calls printer_run print_static_cc_result static_header title_row
    name_rows get_name caller_part caller_maps caller_names pad spaces run_on_module visit_functions
    visit_blocks visit_block visit_instruction count_call find modify insert
printed = refl

called_once : wrap_unsigned (calls_in_functions 1 sample.functions) ≡ 1
unfolding calls_in_functions calls_in_blocks calls_in_block
called_once = refl

main-counts_example :
    ((main row read_file "sample.bc").code ≡ 0)
    × Prints
        (main row read_file "sample.bc").errs
        (row "puts" (wrap_unsigned (calls_in_functions 1 sample.functions)))
main-counts_example =
    main-counts row read_file "sample.bc" sample [] puts (caller ∷ []) refl refl tt
      (λ h. ground (arith, called_once, h))
