-- ===== src/Opcodes/Tests.antt =====
-- OpcodeCounter on a function of three instructions.
use Prim.Native.String.{String, ◌++◌ as append}
use llvm_tutor.Prelude.{ℕ, zero, suc, false, arith, ◌≡◌, refl, List, [], ◌∷◌, wrap_unsigned}
use llvm_tutor.Prelude.Containers.{string_eq, find, lookup, modify}
use llvm_tutor.Ir.{Opcode, binary, ret, void_ty, add, mul, Instruction, BasicBlock, Function}
use llvm_tutor.Opcodes.{count_opcode, count_block, count_blocks, generate_opcode_map}
use llvm_tutor.Opcodes.Correct.{occurrences, occurrences_in_block, generate_opcode_map-lookup}
use llvm_tutor.Printf.{spaces, pad, title_row, count_rows}
use llvm_tutor.Printf.Prints.{PrintsAfter}
use llvm_tutor.Opcodes.Printer.{
  opcode_header, print_opcode_counter_result, printer_run, printer_run-Prints,
}

abbrev name_of : Opcode → String
name_of (binary add) = "add"
name_of (binary mul) = "mul"
name_of ret = "ret"
name_of _ = "other"

abbrev inst : Opcode → Instruction
inst op = record { id = 0; opcode = op; ty = void_ty; operands = [] }

abbrev three : List BasicBlock
three =
    record { label = 0; instructions = inst (binary add) ∷ inst (binary add) ∷ [] }
    ∷ record { label = 1; instructions = inst ret ∷ [] }
    ∷ []

counted : generate_opcode_map name_of three ≡ (("add", 2) ∷ ("ret", 1) ∷ [])
unfolding count_opcode count_block count_blocks generate_opcode_map find modify
counted = refl

generate_opcode_map-lookup_example :
    lookup "add" 0 (generate_opcode_map name_of three)
    ≡ wrap_unsigned (occurrences name_of "add" three)
generate_opcode_map-lookup_example = generate_opcode_map-lookup name_of "add" three

two_adds : wrap_unsigned (occurrences name_of "add" three) ≡ 2
unfolding occurrences occurrences_in_block
two_adds = refl

-- Numbers as strokes.
abbrev strokes : ℕ → String
strokes zero = ""
strokes (suc n) = append "|" (strokes n)

abbrev row : String → ℕ → String
row name n = append name (append " " (append (strokes n) "\n"))

abbrev foo : Function
foo = record { id = 0; name = "foo"; args = []; blocks = three; opt_none = false }

printed :
    (printer_run row name_of foo).0
    ≡ "Printing analysis 'OpcodeCounter Pass' for function 'foo':\n=================================================\nLLVM-TUTOR: OpcodeCounter results\n=================================================\nOPCODE               #TIMES USED\n-------------------------------------------------\nadd ||\nret |\n-------------------------------------------------\n\n"
unfolding printer_run print_opcode_counter_result opcode_header title_row pad spaces count_rows
    generate_opcode_map count_blocks count_block count_opcode find modify
printed = refl

printer_run-Prints_example :
    PrintsAfter
      (printer_run row name_of foo).0
      (append "Printing analysis 'OpcodeCounter Pass' for function '" (append "foo" "':\n"))
      (row "add" (wrap_unsigned (occurrences name_of "add" three)))
printer_run-Prints_example =
    printer_run-Prints row name_of foo "add" (λ h. ground (arith, two_adds, h))
