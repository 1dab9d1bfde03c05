-- ===== src/Riv/Printer.antt =====
-- lib/RIV.cpp, RIVPrinter::run and printRIVResult: the text that goes to the output stream. How LLVM
-- prints a block as an operand, and a value, are parameters.
use Prim.Native.String.append
use Prim.Native.String.{String, ◌++◌ as append}
use llvm_tutor.Prelude.{ℕ, ◌≡◌, List, [], ◌∷◌}
use llvm_tutor.Prelude.Containers.{nat_eq}
use llvm_tutor.Ir.{Value, value_eq, PreservedAnalyses, all_preserved}
use llvm_tutor.Printf.{pad, double_rule, single_rule}
use llvm_tutor.Riv.{RivResult}

unfoldable pub riv_header : String
riv_header = append double_rule (
    append "LLVM-TUTOR: RIV analysis results\n" (
      append double_rule (
        append (pad 10 "BB id")
          (append " " (append (pad 30 "Reachable Integer Values") (append "\n" single_rule))))))

module _ (block_name : ℕ → String) (value_text : Value → String) where
  -- format("BB %-12s %-30s\n", ...) with an empty second column.
  unfoldable pub block_line : ℕ → String
  block_line l =
      append "BB " (append (pad 12 (block_name l)) (append " " (append (pad 30 "") "\n")))

  unfoldable pub value_line : Value → String
  value_line v = append (pad 12 "") (append " " (append (pad 30 (value_text v)) "\n"))

  unfoldable pub value_lines : List Value → String
  value_lines [] = ""
  value_lines (v ∷ vs) = append (value_line v) (value_lines vs)

  unfoldable pub riv_lines : RivResult → String
  riv_lines [] = ""
  riv_lines ((l, vs) ∷ riv) = append (block_line l) (append (value_lines vs) (riv_lines riv))

  unfoldable pub print_riv_result : RivResult → String
  print_riv_result riv = append riv_header (append (riv_lines riv) "\n\n")

  unfoldable pub printer_run : RivResult → String × PreservedAnalyses
  printer_run riv = (print_riv_result riv, all_preserved)

  -- The text has the line of the block l and below it, with only lines of values between them, the line
  -- of v.
  abbrev pub IsPrintedUnder : String → ℕ → Value → Type 0
  IsPrintedUnder text l v =
      (a : String) × (ws : List Value) × (c : String) × (text
        ≡ append a (
            append
              (append "BB " (append (pad 12 (block_name l)) (append " " (append (pad 30 "") "\n"))))
              (append (value_lines ws) (
                append (append (pad 12 "") (append " " (append (pad 30 (value_text v)) "\n"))) c))))
