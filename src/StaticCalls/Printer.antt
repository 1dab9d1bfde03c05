-- ===== src/StaticCalls/Printer.antt =====
-- lib/StaticCallCounter.cpp, StaticCallCounterPrinter::run and printStaticCCResult: the text that goes
-- to the output stream. How LLVM formats a row of the first table is a parameter.
use Prim.Native.String.{String, ◌++◌ as append}
use llvm_tutor.Prelude.{
  ℕ, ◌==◌, ◌≡◌, ap, ◌∙◌, inl, inr, some, List, [], ◌∷◌, ◌++◌, All, wrap_unsigned, if◌then◌else◌,
  arith, Bool-cases,
}
use llvm_tutor.Prelude.Containers.{nat_eq, find}
use llvm_tutor.Ir.{Function, Module, PreservedAnalyses, all_preserved}
use llvm_tutor.Printf.{pad, double_rule, single_rule, title_row}
use llvm_tutor.Printf.Prints.{Prints, Prints-here, Prints-behind, Prints-before, find-lookup}
use llvm_tutor.StaticCalls.{ResultStaticCc, ResultCaller, CallState, run_on_module}
use llvm_tutor.StaticCalls.Correct.{calls_in_functions, run_on_module-counts}

-- F->getName() of the function with an identity.
unfoldable pub get_name : List Function → ℕ → String
get_name [] k = ""
get_name (f ∷ fs) k = if f.id == k then f.name else get_name fs k

unfoldable pub static_header : String
static_header = append double_rule (
    append "LLVM-TUTOR: static analysis results\n"
      (append double_rule (append (title_row "NAME" "#N DIRECT CALLS") single_rule)))

module _ (count_row : String → ℕ → String) (name : ℕ → String) where
  -- The loop over the table of numbers.
  unfoldable pub name_rows : ResultStaticCc → String
  name_rows [] = ""
  name_rows ((f, n) ∷ rows) = append (count_row (name f) n) (name_rows rows)

  -- The functions that call a callee.
  unfoldable pub caller_names : List ℕ → String
  caller_names [] = "\n"
  caller_names (f ∷ fs) = append (pad 20 (name f)) (append " " (caller_names fs))

  unfoldable pub caller_maps : ResultCaller → String
  caller_maps [] = ""
  caller_maps ((callee, fs) ∷ rest) = append "Callee" (
      append (pad 20 (name callee))
        (append " Called From\n" (append (caller_names fs) (caller_maps rest))))

  unfoldable pub caller_part : ResultCaller → String
  caller_part callers =
      append "------------CallerMaps\n" (append (caller_maps callers) (append single_rule "\n"))

  unfoldable pub print_static_cc_result : CallState → String
  print_static_cc_result st =
      append static_header (append (name_rows st.res) (caller_part st.caller_result))

  name_rows-Prints :
      (rows : ResultStaticCc) (f n : ℕ)
      → find f rows ≡ some n
      → Prints (name_rows rows) (count_row (name f) n)
  unfolding name_rows find
  name_rows-Prints [] f n h = absurd (ground (arith, h))
  name_rows-Prints ((g, m) ∷ rows) f n h = elim (Bool-cases (g == f)) [
    | inl e ↦
        let value : m ≡ n = ground (arith, h, e) in
        let key : g ≡ f = ground (arith, e) in
        rw (← value, ← key) (Prints-here (count_row (name g) m) (name_rows rows))
    | inr e ↦
        Prints-behind (count_row (name g) m) (name_rows rows) (count_row (name f) n)
          (name_rows-Prints rows f n (ground (arith, h, e)))
  ]

module _ (count_row : String → ℕ → String) where
  -- What the printer pass writes for a module, and what it preserves.
  unfoldable pub printer_run : ResultCaller → Module → String × PreservedAnalyses
  printer_run callers m = (
    print_static_cc_result count_row (get_name m.functions) (run_on_module callers m),
    all_preserved,
  )

  get_name-there :
      (before : List Function) (f : Function) (after : List Function)
      → All (λ g. g.id ≡ f.id → ⊥) before
      → get_name (before ++ (f ∷ after)) f.id ≡ f.name
  unfolding get_name
  get_name-there [] f after h = ground arith
  get_name-there (g ∷ before) f after (n, h) = elim (Bool-cases (g.id == f.id)) [
    | inl e ↦ absurd (n (ground (arith, e)))
    | inr e ↦ rw e (get_name-there before f after h)
  ]

  -- For every function that the module calls directly the printer writes the row with the function's
  -- name and the number of those calls, unless that number is a multiple of 2 ^ 32.
  pub printer_run-Prints :
      (callers : ResultCaller) (m : Module) (before : List Function) (f : Function)
      (after : List Function)
      → m.functions ≡ before ++ (f ∷ after)
      → All (λ g. g.id ≡ f.id → ⊥) before
      → (wrap_unsigned (calls_in_functions f.id m.functions) ≡ 0 → ⊥)
      → Prints
          (printer_run callers m).0
          (count_row f.name (wrap_unsigned (calls_in_functions f.id m.functions)))
  unfolding printer_run print_static_cc_result
  printer_run-Prints callers m before f after e first h =
      let st = run_on_module callers m in
      let n = wrap_unsigned (calls_in_functions f.id m.functions) in
      let name = get_name m.functions in
      let row =
        name_rows-Prints count_row name st.res f.id n
          (find-lookup f.id n st.res (run_on_module-counts callers m f.id) h) in
      let named : name f.id ≡ f.name =
        ap (λ fs. get_name fs f.id) e ∙ get_name-there before f after first in
      rw (← named) (
        Prints-behind static_header _ _
          (Prints-before (name_rows count_row name st.res) _ (count_row (name f.id) n) row))
