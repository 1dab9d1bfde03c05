-- ===== src/DuplicateBb.antt =====
-- lib/DuplicateBB.cpp, findBBsToDuplicate: the blocks that the pass clones, each with a value that
-- decides between the clones. The random numbers are an argument: `draw k count` is the k-th that
-- is asked for, below `count`.
pub mod Chosen
pub mod Clone
mod Tests
use llvm_tutor.Prelude.{
  ℕ, zero, suc, ◌+◌, Bool, true, false, Option, none, some, List, [], ◌∷◌, if◌then◌else◌, length,
}
use llvm_tutor.Prelude.Containers.{nat_eq, lookup}
use llvm_tutor.Ir.{Value, global, function, Opcode, phi, landing_pad, Instruction, BasicBlock}
use llvm_tutor.Ir.Query.{is_phi}
use llvm_tutor.Riv.{RivResult}

-- BB.isLandingPad(): the first instruction that is no PHI node.
unfoldable pub starts_with_pad : List Instruction → Bool
starts_with_pad [] = false
starts_with_pad (i ∷ is) =
    let rest = starts_with_pad is in
    elim i.opcode [ phi ls ↦ rest | landing_pad ↦ true | _ ↦ false ]

-- std::advance(Iter, k).
unfoldable pub advance : ℕ → List Value → Option Value
advance k [] = none
advance zero (v ∷ vs) = some v
advance (suc k) (v ∷ vs) = advance k vs

-- dyn_cast<GlobalValue>.
abbrev pub is_global_value : Value → Bool
is_global_value (global k) = true
is_global_value (function k) = true
is_global_value _ = false

module _ (draw : ℕ → ℕ → ℕ) (riv : RivResult) where
  -- The draw of a block with the reachable values vs.
  abbrev pub context_value : ℕ → List Value → Option Value
  context_value k vs = elim (advance (draw k (length vs)) vs) [
    | none ↦ none
    | some v ↦ if is_global_value v then none else some v
  ]

  -- A number is drawn only for a block that is no landing pad and has reachable values.
  unfoldable pub find_bbs_to_duplicate : ℕ → List BasicBlock → List (ℕ × Value)
  find_bbs_to_duplicate k [] = []
  find_bbs_to_duplicate k (b ∷ bs) =
      let same = find_bbs_to_duplicate k bs in
      let drawn = find_bbs_to_duplicate (k + 1) bs in
      if starts_with_pad b.instructions then same else elim (lookup b.label [] riv) [
        | [] ↦ same
        | v ∷ vs ↦ elim (context_value k (v ∷ vs)) [ none ↦ drawn | some w ↦ (b.label, w) ∷ drawn ]
      ]
