-- ===== src/DuplicateBb/Clone/Kept.antt =====
-- What cloneBB relies on holds of what it leaves, and the other blocks stay ready for it.
use llvm_tutor.Prelude.{
  ℕ, ◌+◌, ◌*◌, ◌≤◌, ◌<◌, ◌≡◌, ◌⊎◌, refl, ap, ◌∙◌, false, inl, inr, some, List, [], ◌∷◌, ◌++◌,
  length, map, All, All-append, arith, Bool-cases,
}
use llvm_tutor.Prelude.Containers.{lookup}
use llvm_tutor.Ir.{value_eq, basic_block, Instruction, BasicBlock}
use llvm_tutor.Ir.Query.{is_phi, last_inst}
use llvm_tutor.Builder.{Emit}
use llvm_tutor.Machine.Flow.{take_phis, drop_phis}
use llvm_tutor.Machine.Flow.Live.{Named, IsPlain, drop_phis-IsPlain, front-last}
use llvm_tutor.DuplicateBb.Clone.Documented.{move_inst, move_block, branch}
use llvm_tutor.DuplicateBb.Clone.Moved.{LabelsBelow, drop_phis-moved}
use llvm_tutor.DuplicateBb.Clone.Loop.{branch_code, tail_phis}
use llvm_tutor.DuplicateBb.Clone.Loop.Tail.{drop_phis-tail_phis}
use llvm_tutor.DuplicateBb.Clone.Shape.{
  body, head_branch, head_block, clone_block, tail_block, four_blocks,
}
use llvm_tutor.DuplicateBb.Clone.Formed.{
  IsFormed, Operands, All-drop_phis, All-front, All-last, branch_code-IsPlain,
}
use llvm_tutor.DuplicateBb.Clone.Head.{head-split}
use llvm_tutor.DuplicateBb.Clone.Again.{
  All-Named_keep, All-Operands_keep, branch_code-Operands, tail_phis-Operands,
  tail_phis-LabelsBelow, All-LabelsBelow_plain, All-LabelsBelow_moved, All-moved, drop_phis-map,
}

-- The registers of P, and those that were fresh.
abbrev pub Grown : (ℕ → Type 0) → ℕ → ℕ → ℕ → Type 0
Grown P n k j = P j ⊎ ((n ≤ j) × (j < k))

take_phis-All : (R : Instruction → Type 0) (is : List Instruction) → All R is → All R (take_phis is)
unfolding take_phis
take_phis-All R [] h = tt
take_phis-All R (i ∷ is) h = elim (Bool-cases (is_phi i.opcode)) [
  | inl v ↦ rw (All, v) (h.0, take_phis-All R is h.1)
  | inr v ↦ rw (All, v) tt
]

module _ (P Q : ℕ → Type 0) (keep : (j : ℕ) → P j → Q j) (next : ℕ) where
  -- A block in which only PHI nodes change.
  pub move_block-IsFormed :
      (l : ℕ) (b : BasicBlock)
      → IsFormed P next b
      → IsFormed Q (next + 3) (move_block l (next + 2) b)
  move_block-IsFormed l b h =
      let same = drop_phis-map l next b.instructions h.phis_first in
      record {
        label_below = omega (arith, h.label_below);
        phi_labels = All-LabelsBelow_moved l next b.instructions h.phi_labels;
        operands =
            All-moved l next (Operands Q) b.instructions (λ i o. o)
              (All-Operands_keep P Q keep b.instructions h.operands);
        phis_first = rw same (h.phis_first);
      }

  pub map-move_IsFormed :
      (l : ℕ) (bs : List BasicBlock)
      → All (IsFormed P next) bs
      → All (IsFormed Q (next + 3)) (map (move_block l (next + 2)) bs)
  map-move_IsFormed l [] h = tt
  map-move_IsFormed l (b ∷ bs) h = (move_block-IsFormed l b h.0, map-move_IsFormed l bs h.1)

  module _ (b : BasicBlock) (c : Emit) (i : Instruction) (formed : IsFormed P next b)
      (last : last_inst (drop_phis b.instructions) ≡ some i) (plain : IsPlain c.code)
      (fresh : (j : ℕ) → c.next + 3 ≤ j → j < c.next + 3 + 2 * length (body b c next) → Q j) where
    body-Operands : All (Operands P) (body b c next)
    body-Operands =
        All-front (Operands P) (drop_phis b.instructions)
          (All-drop_phis (Operands P) b.instructions formed.operands)

    head-IsFormed :
        Named Q c.value → All (Operands Q) c.code → IsFormed Q (next + 3) (head_block b c next)
    head-IsFormed value code =
        let br = head_branch b c next in
        let l = b.label in
        let split = head-split l (next + 2) b.instructions c.code br plain in
        let rest : IsPlain (c.code ++ br ∷ []) =
          All-append (λ i. is_phi i.opcode ≡ false) c.code (br ∷ []) plain (refl, tt) in
        let phis = map (move_inst l (next + 2)) (take_phis b.instructions) in
        let first : drop_phis (head_block b c next).instructions ≡ c.code ++ br ∷ [] =
          ap drop_phis split
          ∙ drop_phis-moved l (next + 2) b.instructions (c.code ++ br ∷ []) rest in
        record {
          label_below = omega (arith, formed.label_below);
          phi_labels = rw split (
              All-append (λ i. LabelsBelow (next + 3) i.opcode) phis (c.code ++ br ∷ [])
                (All-LabelsBelow_moved l next (take_phis b.instructions)
                  (take_phis-All (λ i. LabelsBelow next i.opcode) b.instructions formed.phi_labels))
                (All-LabelsBelow_plain (next + 3) (c.code ++ br ∷ []) rest));
          operands = rw split (
              All-append (Operands Q) phis (c.code ++ br ∷ [])
                (All-moved l next (Operands Q) (take_phis b.instructions) (λ i o. o)
                  (take_phis-All (Operands Q) b.instructions
                    (All-Operands_keep P Q keep b.instructions formed.operands)))
                (All-append (Operands Q) c.code (br ∷ []) code ((value, (tt, (tt, tt))), tt)));
          phis_first = rw first rest;
        }

    clone-IsFormed :
        (off l id : ℕ)
        → off < 2
        → l < next + 3
        → IsFormed Q (next + 3) (clone_block b c next off l id)
    unfolding lookup
    clone-IsFormed off l id o below =
        let code = branch_code off (c.next + 3) [] (body b c next) in
        let br = branch id (basic_block (next + 2) ∷ []) in
        let flat : IsPlain (code ++ br ∷ []) =
          All-append (λ i. is_phi i.opcode ≡ false) code (br ∷ [])
            (branch_code-IsPlain off (c.next + 3) [] (body b c next) (
              All-front (λ i. is_phi i.opcode ≡ false) (drop_phis b.instructions)
                formed.phis_first))
            (refl, tt) in
        let same = (drop_phis-IsPlain (code ++ br ∷ []) flat).0 in
        record {
          label_below = below;
          phi_labels = All-LabelsBelow_plain (next + 3) (code ++ br ∷ []) flat;
          operands =
              All-append (Operands Q) code (br ∷ [])
                (branch_code-Operands P Q off (c.next + 3) [] (body b c next) o keep fresh
                  body-Operands)
                ((tt, tt), tt);
          phis_first = rw same flat;
        }

    tail-IsFormed : IsFormed Q (next + 3) (tail_block b c next i)
    tail-IsFormed =
        let phis = tail_phis next (next + 1) (c.next + 3) (body b c next) in
        let split = front-last (drop_phis b.instructions) i last in
        let operands = All-drop_phis (Operands P) b.instructions formed.operands in
        let ended : Operands P i =
          All-last (Operands P) (body b c next) i (rw (← split) operands) in
        let flat : is_phi i.opcode ≡ false =
          All-last (λ i. is_phi i.opcode ≡ false) (body b c next) i
            (rw (← split) formed.phis_first) in
        let same =
          drop_phis-tail_phis next (next + 1) (c.next + 3) (body b c next) (i ∷ []) (flat, tt) in
        record {
          label_below = omega arith;
          phi_labels =
              All-append (λ i. LabelsBelow (next + 3) i.opcode) phis (i ∷ [])
                (tail_phis-LabelsBelow (next + 3) next (next + 1) (c.next + 3) (body b c next)
                  (omega arith) (omega arith))
                (All-LabelsBelow_plain (next + 3) (i ∷ []) (flat, tt));
          operands =
              All-append (Operands Q) phis (i ∷ [])
                (tail_phis-Operands Q next (next + 1) (c.next + 3) (body b c next) fresh)
                (All-Named_keep P Q keep i.operands ended, tt);
          phis_first = rw same (flat, tt);
        }

    pub four_blocks-IsFormed :
        Named Q c.value
        → All (Operands Q) c.code
        → All (IsFormed Q (next + 3)) (four_blocks b c next i)
    four_blocks-IsFormed value code = (
      head-IsFormed value code,
      (
        clone-IsFormed 0 next (c.next + 1) (omega arith) (omega arith),
        (clone-IsFormed 1 (next + 1) (c.next + 2) (omega arith) (omega arith), (tail-IsFormed, tt)),
      ),
    )
