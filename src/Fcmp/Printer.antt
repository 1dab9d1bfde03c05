-- ===== src/Fcmp/Printer.antt =====
-- lib/FindFCmpEq.cpp, FindFCmpEqPrinter::run and printFCmpEqInstructions: the text that goes to the
-- output stream. How LLVM prints an instruction is a parameter.
use Prim.Native.String.{String, ◌++◌ as append}
use text.Mathlib.TextLemmas.{append_assoc}
use llvm_tutor.Prelude.{
  ℕ, ◌≡◌, refl, ◌↔◌, ◌⊎◌, inl, inr, true, List, [], ◌∷◌, All, All-map, Any, Any-append, arith,
  Bool-cases,
}
use llvm_tutor.Ir.{
  Predicate, fcmp_oeq, fcmp_one, fcmp_ueq, fcmp_une, Opcode, fcmp, Instruction, BasicBlock,
  Function, PreservedAnalyses, all_preserved,
}
use llvm_tutor.Printf.Prints.{Prints, PrintsAfter, Prints-here, Prints-behind, PrintsAfter-started}
use llvm_tutor.Fcmp.{is_equality, is_fcmp_eq, find_in_block, find_fcmp_eq}

abbrev pub IsComparison : Instruction → Predicate → Type 0
IsComparison i p = i.opcode ≡ fcmp p

-- A comparison of floating-point numbers for equality or for its opposite, ordered or not.
abbrev pub IsEqualityComparison : Instruction → Type 0
IsEqualityComparison i =
    IsComparison i fcmp_oeq
    ⊎ (IsComparison i fcmp_one ⊎ (IsComparison i fcmp_ueq ⊎ IsComparison i fcmp_une))

equality_iff :
    (i : Instruction) (op : Opcode)
    → i.opcode ≡ op
    → (is_fcmp_eq op ≡ true) ↔ IsEqualityComparison i
unfolding is_equality
equality_iff i (fcmp fcmp_oeq) e = (λ h. inl e, λ h. refl)
equality_iff i (fcmp fcmp_one) e = (λ h. inr (inl e), λ h. refl)
equality_iff i (fcmp fcmp_ueq) e = (λ h. inr (inr (inl e)), λ h. refl)
equality_iff i (fcmp fcmp_une) e = (λ h. inr (inr (inr e)), λ h. refl)
equality_iff i (fcmp p) e = ground (arith, e)
equality_iff i op e = ground (arith, e)

none_in_block :
    (is : List Instruction) → All (λ i. IsEqualityComparison i → ⊥) is → find_in_block is ≡ []
unfolding find_in_block
none_in_block [] h = refl
none_in_block (i ∷ is) (n, h) = elim (Bool-cases (is_fcmp_eq i.opcode)) [
  | inl e ↦ absurd (n ((equality_iff i i.opcode refl).0 e))
  | inr e ↦ rw e (none_in_block is h)
]

none_found :
    (bs : List BasicBlock)
    → All (λ b. All (λ i. IsEqualityComparison i → ⊥) b.instructions) bs
    → find_fcmp_eq bs ≡ []
unfolding find_fcmp_eq
none_found [] h = refl
none_found (b ∷ bs) (n, h) = rw (none_in_block b.instructions n) (none_found bs h)

found_here :
    (i : Instruction) (is : List Instruction)
    → is_fcmp_eq i.opcode ≡ true
    → Any (λ j. j ≡ i.id) (find_in_block (i ∷ is))
unfolding find_in_block
found_here i is e = rw e (inl refl)

found_behind :
    (i : Instruction) (is : List Instruction) (k : ℕ)
    → Any (λ j. j ≡ k) (find_in_block is)
    → Any (λ j. j ≡ k) (find_in_block (i ∷ is))
unfolding find_in_block
found_behind i is k h = elim (Bool-cases (is_fcmp_eq i.opcode)) [
  | inl e ↦ rw e (inr h)
  | inr e ↦ rw e h
]

all_in_block :
    (is : List Instruction)
    → All (λ i. IsEqualityComparison i → Any (λ j. j ≡ i.id) (find_in_block is)) is
all_in_block [] = _
all_in_block (i ∷ is) = (
  λ c. found_here i is ((equality_iff i i.opcode refl).1 c),
  All-map _ _ is (λ j g c. found_behind i is j.id (g c)) (all_in_block is),
)

all_found :
    (bs : List BasicBlock)
    → All
        (λ b.
          All (λ i. IsEqualityComparison i → Any (λ j. j ≡ i.id) (find_fcmp_eq bs)) b.instructions)
        bs
unfolding find_fcmp_eq
all_found [] = _
all_found (b ∷ bs) = (
  All-map _ _ b.instructions
      (λ i g c. Any-append _ (find_in_block b.instructions) (find_fcmp_eq bs) (inl (g c)))
      (all_in_block b.instructions),
  All-map _ _ bs
      (λ a h.
        All-map _ _ a.instructions
          (λ i g c. Any-append _ (find_in_block b.instructions) (find_fcmp_eq bs) (inr (g c))) h)
      (all_found bs),
)

module _ (inst_text : ℕ → String) where
  unfoldable pub fcmp_lines : List ℕ → String
  fcmp_lines [] = ""
  fcmp_lines (i ∷ is) = append (inst_text i) (append "\n" (fcmp_lines is))

  unfoldable pub print_fcmp_eq_instructions : String → List ℕ → String
  print_fcmp_eq_instructions name [] = ""
  print_fcmp_eq_instructions name (i ∷ is) =
      append "Floating-point equality comparisons in \""
        (append name (append "\":\n" (fcmp_lines (i ∷ is))))

  unfoldable pub printer_run : Function → String × PreservedAnalyses
  printer_run f = (print_fcmp_eq_instructions f.name (find_fcmp_eq f.blocks), all_preserved)

  -- The line of a comparison.
  abbrev pub line : Instruction → String
  line i = append (inst_text i.id) "\n"

  fcmp_lines-Prints :
      (ids : List ℕ) (k : ℕ)
      → Any (λ j. j ≡ k) ids
      → Prints (fcmp_lines ids) (append (inst_text k) "\n")
  unfolding fcmp_lines
  fcmp_lines-Prints [] k h = absurd h
  fcmp_lines-Prints (j ∷ ids) k (inl e) =
      rw (← e, ← append_assoc (inst_text j) "\n" (fcmp_lines ids))
        (Prints-here (append (inst_text j) "\n") (fcmp_lines ids))
  fcmp_lines-Prints (j ∷ ids) k (inr h) =
      Prints-behind (inst_text j) _ _ (Prints-behind "\n" _ _ (fcmp_lines-Prints ids k h))

  text-PrintsAfter :
      (name : String) (ids : List ℕ) (k : ℕ)
      → Any (λ j. j ≡ k) ids
      → PrintsAfter
          (print_fcmp_eq_instructions name ids)
          (append "Floating-point equality comparisons in \"" (append name "\":\n"))
          (append (inst_text k) "\n")
  unfolding print_fcmp_eq_instructions
  text-PrintsAfter name [] k h = absurd h
  text-PrintsAfter name (j ∷ ids) k h =
      PrintsAfter-started "Floating-point equality comparisons in \"" name "\":\n"
        (fcmp_lines (j ∷ ids)) _ (fcmp_lines-Prints (j ∷ ids) k h)

  -- If no instruction of a function compares floating-point numbers for equality or its opposite, the
  -- printer writes nothing at all, and otherwise it writes a title with the function's name and below
  -- it a line for every such instruction.
  pub printer_run-lines :
      (f : Function)
      → (All (λ b. All (λ i. IsEqualityComparison i → ⊥) b.instructions) f.blocks
          → (printer_run f).0 ≡ "")
        × All
            (λ b.
              All
                (λ i.
                  IsEqualityComparison i
                  → PrintsAfter
                      (printer_run f).0
                      (append "Floating-point equality comparisons in \"" (append f.name "\":\n"))
                      (line i))
                b.instructions)
            f.blocks
  unfolding printer_run print_fcmp_eq_instructions
  printer_run-lines f = (
    λ h. rw (none_found f.blocks h) refl,
    All-map _ _ f.blocks
        (λ b.
          All-map _ _ b.instructions
            (λ i g c. text-PrintsAfter f.name (find_fcmp_eq f.blocks) i.id (g c)))
        (all_found f.blocks),
  )
