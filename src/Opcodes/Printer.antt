-- ===== src/Opcodes/Printer.antt =====
-- lib/OpcodeCounter.cpp, OpcodeCounterPrinter::run and printOpcodeCounterResult: the text that goes
-- to the output stream. How LLVM formats a row of the table is a parameter.
use Prim.Native.String.{String, ◌++◌ as append}
use llvm_tutor.Prelude.{ℕ, ◌≡◌, wrap_unsigned}
use llvm_tutor.Prelude.Containers.{string_eq}
use llvm_tutor.Ir.{Opcode, Function, PreservedAnalyses, all_preserved}
use llvm_tutor.Printf.{double_rule, single_rule, title_row, count_rows}
use llvm_tutor.Printf.Prints.{
  PrintsAfter, Prints-behind, Prints-before, count_rows-Prints, find-lookup, PrintsAfter-started,
}
use llvm_tutor.Opcodes.{ResultOpcodeCounter, generate_opcode_map}
use llvm_tutor.Opcodes.Correct.{occurrences, generate_opcode_map-lookup}

unfoldable pub opcode_header : String
opcode_header = append double_rule (
    append "LLVM-TUTOR: OpcodeCounter results\n"
      (append double_rule (append (title_row "OPCODE" "#TIMES USED") single_rule)))

abbrev pub opcode_footer : String
opcode_footer = append single_rule "\n"

module _ (count_row : String → ℕ → String) where
  unfoldable pub print_opcode_counter_result : ResultOpcodeCounter → String
  print_opcode_counter_result m =
      append opcode_header (append (count_rows count_row m) opcode_footer)

  module _ (get_opcode_name : Opcode → String) where
    unfoldable pub printer_run : Function → String × PreservedAnalyses
    printer_run f = (
      append "Printing analysis 'OpcodeCounter Pass' for function '" (
          append f.name (
            append "':\n"
              (print_opcode_counter_result (generate_opcode_map get_opcode_name f.blocks)))),
      all_preserved,
    )

    -- For every opcode name that occurs in a function, the printer writes the row with the name and the
    -- number of instructions that have it, behind the function's name, unless that number is a multiple
    -- of 2 ^ 32.
    pub printer_run-Prints :
        (f : Function) (name : String)
        → (wrap_unsigned (occurrences get_opcode_name name f.blocks) ≡ 0 → ⊥)
        → PrintsAfter
            (printer_run f).0
            (append "Printing analysis 'OpcodeCounter Pass' for function '" (append f.name "':\n"))
            (count_row name (wrap_unsigned (occurrences get_opcode_name name f.blocks)))
    unfolding printer_run print_opcode_counter_result
    printer_run-Prints f name h =
        let m = generate_opcode_map get_opcode_name f.blocks in
        let n = wrap_unsigned (occurrences get_opcode_name name f.blocks) in
        let row =
          count_rows-Prints count_row m name n
            (find-lookup name n m (generate_opcode_map-lookup get_opcode_name name f.blocks) h) in
        let table =
          Prints-behind opcode_header _ _
            (Prints-before (count_rows count_row m) opcode_footer (count_row name n) row) in
        PrintsAfter-started "Printing analysis 'OpcodeCounter Pass' for function '" f.name "':\n"
          (print_opcode_counter_result m) _ table
