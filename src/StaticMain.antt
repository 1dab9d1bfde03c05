-- ===== src/StaticMain.antt =====
-- tools/StaticMain.cpp: the program `static`, which prints what StaticCallCounter finds in a file.
-- parseIRFile is LLVM's, a parameter: it gives a module, or a message about what is wrong with the
-- file. The command line is what LLVM's option parser made of it, the name of the file.
mod Tests
use Prim.Native.String.{String, ◌++◌ as append}
use llvm_tutor.Prelude.{ℕ, ◌≡◌, refl, List, [], ◌∷◌, ◌++◌, All, wrap_unsigned}
use llvm_tutor.Ir.{Function, Module}
use llvm_tutor.Printf.Prints.{Prints}
use llvm_tutor.StaticCalls.Printer.{printer_run, printer_run-Prints}
use llvm_tutor.StaticCalls.Correct.{calls_in_functions}

pub data Parsed : Type 0 where
  parse_error : String → Parsed
  parsed : Module → Parsed

-- The exit code, and what was written to stderr.
pub record Exit : Type 0 where
  pub code : ℕ
  pub errs : String

-- -1, as an `int` of 32 bits.
abbrev pub minus_one : ℕ
minus_one = 4294967295

module _ (count_row : String → ℕ → String) where
  -- A new process: no earlier run has left anything in CallerResult.
  unfoldable pub count_static_calls : Module → String
  count_static_calls m = (printer_run count_row [] m).0

  -- What main does when it has parsed the file.
  abbrev pub exit_with : String → Parsed → Exit
  exit_with input (parse_error err) = record {
    code = minus_one;
    errs = append "Error reading bitcode file: " (append input (append "\n" err));
  }
  exit_with input (parsed m) = record { code = 0; errs = count_static_calls m }

  module _ (parse_ir_file : String → Parsed) where
    unfoldable pub main : String → Exit
    main input = exit_with input (parse_ir_file input)

    -- If the file can be read, the program ends with 0, and for every function that the module calls
    -- directly it has printed the row with the function's name and the number of those calls, unless
    -- that number is a multiple of 2 ^ 32.
    pub main-counts :
        (input : String) (m : Module) (before : List Function) (f : Function)
        (after : List Function)
        → parse_ir_file input ≡ parsed m
        → m.functions ≡ before ++ (f ∷ after)
        → All (λ g. g.id ≡ f.id → ⊥) before
        → (wrap_unsigned (calls_in_functions f.id m.functions) ≡ 0 → ⊥)
        → ((main input).code ≡ 0)
          × Prints
              (main input).errs
              (count_row f.name (wrap_unsigned (calls_in_functions f.id m.functions)))
    unfolding main count_static_calls
    main-counts input m before f after h e first called =
        rw h (refl, printer_run-Prints count_row [] m before f after e first called)
