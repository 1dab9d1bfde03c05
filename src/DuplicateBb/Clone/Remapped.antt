-- ===== src/DuplicateBb/Clone/Remapped.antt =====
-- ReMapper of DuplicateBB::cloneBB: what the loop records in it, and what it is read for.
use llvm_tutor.Prelude.{ℕ, ◌≡◌, some, List, [], ◌∷◌, Any}
use llvm_tutor.Prelude.Containers.{find, modify}
use llvm_tutor.Ir.{value_eq, instruction, phi, Instruction}
use llvm_tutor.DuplicateBb.Clone.{ValueToPhiMap}

abbrev named : ℕ → ValueToPhiMap → ValueToPhiMap
named k rm = modify (instruction k) (instruction k) (λ old. instruction k) rm

module _ (then_label else_label : ℕ) where
  -- ReMapper has a PHI node of the Tail for the instruction, which merges the two clones.
  abbrev pub IsRemapped : List Instruction → ValueToPhiMap → Instruction → Type 0
  IsRemapped tail_code re_mapper i =
      (p : Instruction) × Any (λ j. j ≡ p) tail_code
      × (p.opcode ≡ phi (then_label ∷ else_label ∷ []))
      × (find (instruction i.id) re_mapper ≡ some (instruction p.id))
