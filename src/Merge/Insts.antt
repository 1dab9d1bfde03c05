-- ===== src/Merge/Insts.antt =====
-- MergeBB::canRemoveInst and MergeBB::canMergeInstructions. `same_operation` is LLVM's
-- Instruction::isSameOperationAs.
pub mod Successor
pub mod Mergeable
use llvm_tutor.Prelude.{
  ℕ, ◌==◌, ◌≡◌, refl, Bool, true, false, ◌||◌, ◌&&◌, not, Option, none, some, List, [], ◌∷◌,
  if◌then◌else◌, arith, length,
}
use llvm_tutor.Ir.{
  Value, instruction, basic_block, same_value, Opcode, br, switch, Instruction, BasicBlock,
}
use llvm_tutor.Ir.Query.{find_block, get_terminator, is_phi, phi_incoming, uses}

-- getTerminator()->getSuccessor(0): the last operand of a branch, the default of a switch.
unfoldable pub last_target : List Value → Option ℕ
last_target [] = none
last_target (basic_block l ∷ []) = some l
last_target (v ∷ []) = none
last_target (v ∷ w ∷ vs) = last_target (w ∷ vs)

abbrev pub default_target : List Value → Option ℕ
default_target (v ∷ basic_block l ∷ vs) = some l
default_target _ = none

unfoldable pub successor0 : List BasicBlock → ℕ → Option ℕ
unfolding find_block last_target
successor0 bs l = elim (find_block l bs) [
  | none ↦ none
  | some b ↦ elim (get_terminator b) [
    | none ↦ none
    | some t ↦ elim t.opcode [
      | br ↦ last_target t.operands
      | switch ↦ default_target t.operands
      | _ ↦ none
    ]
  ]
]

abbrev pub is_label : Option ℕ → ℕ → Bool
is_label none l = false
is_label (some k) l = k == l

abbrev pub is_value : Option Value → Value → Bool
is_value none v = false
is_value (some u) v = same_value u v

-- A PHI node of the successor takes `inst` on the edge from its block.
abbrev pub used_in_phi : List BasicBlock → ℕ → Instruction → ℕ → Instruction → Bool
used_in_phi bs l inst user_block user =
    is_phi user.opcode
    && is_label (successor0 bs l) user_block
    && is_value (phi_incoming user l) (instruction inst.id)

-- canRemoveInst, of an instruction of block l that has a use; the code asserts that there is one.
unfoldable pub can_remove_inst : List BasicBlock → ℕ → Instruction → Bool
can_remove_inst bs l inst = elim (uses bs inst.id) [
  | [] ↦ false
  | use1 ∷ others ↦ used_in_phi bs l inst use1.0 use1.1 || (use1.0 == l)
]

-- !user_empty() and hasOneUse().
abbrev pub has_use : List (ℕ × Instruction) → Bool
has_use [] = false
has_use (u ∷ us) = true

abbrev pub has_one_use : List (ℕ × Instruction) → Bool
has_one_use (u ∷ []) = true
has_one_use _ = false

-- The loop over both instructions: as many uses as HasUse asks for.
abbrev pub use_count_fits : Bool → List (ℕ × Instruction) → Bool
use_count_fits true us = has_one_use us
use_count_fits false us = not (has_use us)

-- The operands are the same, one by one.
unfoldable pub same_operands : List Value → List Value → Bool
same_operands [] [] = true
same_operands (v ∷ vs) (w ∷ ws) = same_value w v && same_operands vs ws
same_operands _ _ = false

module _ (same_operation : Instruction → Instruction → Bool) where
  -- canMergeInstructions of one instruction of block l1 and one of block l2.
  unfoldable pub can_merge_instructions : List BasicBlock → ℕ → Instruction → ℕ → Instruction → Bool
  can_merge_instructions bs l1 i1 l2 i2 =
      let has = has_use (uses bs i1.id) in
      if not (same_operation i1 i2)
      then false
      else if not (use_count_fits has (uses bs i1.id))
      then false
      else if not (use_count_fits has (uses bs i2.id))
      then false
      else if has && (not (can_remove_inst bs l1 i1) || not (can_remove_inst bs l2 i2))
      then false
      else same_operands i1.operands i2.operands
