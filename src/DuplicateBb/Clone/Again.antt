-- ===== src/DuplicateBb/Clone/Again.antt =====
-- The blocks that cloneBB leaves are formed as those it found, for the registers Q that operands may
-- name now: those of P, and those of the clones.
use llvm_tutor.Prelude.{
  ℕ, ◌+◌, ◌*◌, ◌==◌, ◌≤◌, ◌<◌, ◌≡◌, ap, ◌∙◌, false, inl, inr, List, [], ◌∷◌, length, map, All,
  All-append, arith, Bool-cases,
}
use llvm_tutor.Ir.{Value, instruction, Opcode, phi, Instruction, BasicBlock}
use llvm_tutor.Ir.Query.{is_phi}
use llvm_tutor.Machine.Flow.{drop_phis, front}
use llvm_tutor.Machine.Flow.Live.{Named, IsPlain}
use llvm_tutor.DuplicateBb.Clone.{
  is_void_ty, VMap, set_vmap, remap_value, remap_values, remap_as, ValueToPhiMap, clone_insts,
  splice,
}
use llvm_tutor.DuplicateBb.Clone.Documented.{move, move_opcode, move_inst}
use llvm_tutor.DuplicateBb.Clone.Moved.{LabelsBelow, drop_phis-moved}
use llvm_tutor.DuplicateBb.Clone.Loop.{mapped, branch_code, tail_phis, set_vmap-mapped}
use llvm_tutor.DuplicateBb.Clone.Formed.{Operands}
use llvm_tutor.DuplicateBb.Clone.Other.{moved-split}

pub clone_insts-next :
    (t e k : ℕ) (tm em lm : VMap) (rm : ValueToPhiMap) (is : List Instruction)
    → (clone_insts t e k tm em lm rm is).next ≡ k + 2 * length (front is)
unfolding clone_insts front
clone_insts-next t e k tm em lm rm [] = omega arith
clone_insts-next t e k tm em lm rm (i ∷ []) = omega arith
clone_insts-next t e k tm em lm rm (i ∷ j ∷ is) =
    omega (arith, clone_insts-next t e (k + 2) _ _ _ _ (j ∷ is))

module _ (P Q : ℕ → Type 0) (keep : (j : ℕ) → P j → Q j) where
  pub Named-keep : (v : Value) → Named P v → Named Q v
  Named-keep (instruction i) h = keep i h
  Named-keep _ h = tt

  pub All-Named_keep : (vs : List Value) → All (Named P) vs → All (Named Q) vs
  All-Named_keep [] h = tt
  All-Named_keep (v ∷ vs) h = (Named-keep v h.0, All-Named_keep vs h.1)

  pub All-Operands_keep : (is : List Instruction) → All (Operands P) is → All (Operands Q) is
  All-Operands_keep [] h = tt
  All-Operands_keep (i ∷ is) h = (All-Named_keep i.operands h.0, All-Operands_keep is h.1)

module _ (P Q : ℕ → Type 0) where
  remap_value-Named :
      (vm : VMap) (v : Value)
      → ((j : ℕ) → P j → Q (mapped vm j))
      → Named P v
      → Named Q (remap_value vm v)
  remap_value-Named vm (instruction i) f h = f i h
  remap_value-Named vm _ f h = tt

  remap_values-Named :
      (vm : VMap) (vs : List Value)
      → ((j : ℕ) → P j → Q (mapped vm j))
      → All (Named P) vs
      → All (Named Q) (remap_values vm vs)
  unfolding remap_values
  remap_values-Named vm [] f h = tt
  remap_values-Named vm (v ∷ vs) f h =
      (remap_value-Named vm v f h.0, remap_values-Named vm vs f h.1)

  set_vmap-Named :
      (i c : ℕ) (vm : VMap)
      → Q c
      → ((j : ℕ) → P j → Q (mapped vm j))
      → (j : ℕ) → P j
      → Q (mapped (set_vmap i c vm) j)
  set_vmap-Named i c vm q f j p =
      let law = set_vmap-mapped i c j vm in
      elim (Bool-cases (i == j)) [ inl v ↦ rw (law, v) q | inr v ↦ rw (law, v) (f j p) ]

  -- The clones name what was named, or other clones.
  pub branch_code-Operands :
      (off k : ℕ) (vm : VMap) (is : List Instruction)
      → off < 2
      → ((j : ℕ) → P j → Q (mapped vm j))
      → ((j : ℕ) → k ≤ j → j < k + 2 * length is → Q j)
      → All (Operands P) is
      → All (Operands Q) (branch_code off k vm is)
  unfolding branch_code remap_as
  branch_code-Operands off k vm [] o f g h = tt
  branch_code-Operands off k vm (i ∷ is) o f g h = (
    remap_values-Named vm i.operands f h.0,
    branch_code-Operands off (k + 2) (set_vmap i.id (k + off) vm) is o
        (set_vmap-Named i.id (k + off) vm (g (k + off) (omega arith) (omega arith)) f)
        (λ j x y. g j (omega arith) (omega arith)) h.1,
  )

pub tail_phis-Operands :
    (Q : ℕ → Type 0) (t e k : ℕ) (is : List Instruction)
    → ((j : ℕ) → k ≤ j → j < k + 2 * length is → Q j)
    → All (Operands Q) (tail_phis t e k is)
unfolding tail_phis
tail_phis-Operands Q t e k [] g = tt
tail_phis-Operands Q t e k (i ∷ is) g =
    let rest = tail_phis-Operands Q t e (k + 2) is (λ j x y. g j (omega arith) (omega arith)) in
    elim (Bool-cases (is_void_ty i.ty)) [
      | inl v ↦ rw v rest
      | inr v ↦
          rw (All, v)
            ((g k (omega arith) (omega arith), (g (k + 1) (omega arith) (omega arith), tt)), rest)
    ]

pub tail_phis-LabelsBelow :
    (n t e k : ℕ) (is : List Instruction)
    → t < n
    → e < n
    → All (λ i. LabelsBelow n i.opcode) (tail_phis t e k is)
unfolding tail_phis
tail_phis-LabelsBelow n t e k [] x y = tt
tail_phis-LabelsBelow n t e k (i ∷ is) x y =
    let rest = tail_phis-LabelsBelow n t e (k + 2) is x y in
    elim (Bool-cases (is_void_ty i.ty)) [
      | inl v ↦ rw v rest
      | inr v ↦ rw (All, v) ((x, (y, tt)), rest)
    ]

LabelsBelow-plain : (n : ℕ) (op : Opcode) → is_phi op ≡ false → LabelsBelow n op
LabelsBelow-plain n (phi ls) h = absurd (ground (arith, h))
LabelsBelow-plain n _ h = tt

pub All-LabelsBelow_plain :
    (n : ℕ) (is : List Instruction) → IsPlain is → All (λ i. LabelsBelow n i.opcode) is
All-LabelsBelow_plain n [] h = tt
All-LabelsBelow_plain n (i ∷ is) h =
    (LabelsBelow-plain n i.opcode h.0, All-LabelsBelow_plain n is h.1)

module _ (l next : ℕ) where
  labels-moved :
      (ls : List ℕ) → All (λ k. k < next) ls → All (λ k. k < next + 3) (map (move l (next + 2)) ls)
  labels-moved [] h = tt
  labels-moved (k ∷ ks) h = (ground (arith, h.0), labels-moved ks h.1)

  LabelsBelow-moved :
      (op : Opcode) → LabelsBelow next op → LabelsBelow (next + 3) (move_opcode l (next + 2) op)
  LabelsBelow-moved (phi ls) h = labels-moved ls h
  LabelsBelow-moved _ h = tt

  pub All-LabelsBelow_moved :
      (is : List Instruction)
      → All (λ i. LabelsBelow next i.opcode) is
      → All (λ i. LabelsBelow (next + 3) i.opcode) (map (move_inst l (next + 2)) is)
  All-LabelsBelow_moved [] h = tt
  All-LabelsBelow_moved (i ∷ is) h = (LabelsBelow-moved i.opcode h.0, All-LabelsBelow_moved is h.1)

  -- What is said of an instruction but its opcode.
  pub All-moved :
      (R : Instruction → Type 0) (is : List Instruction)
      → ((i : Instruction) → R i → R (move_inst l (next + 2) i))
      → All R is
      → All R (map (move_inst l (next + 2)) is)
  All-moved R [] f h = tt
  All-moved R (i ∷ is) f h = (f i h.0, All-moved R is f h.1)

  pub drop_phis-map :
      (is : List Instruction)
      → IsPlain (drop_phis is)
      → drop_phis (map (move_inst l (next + 2)) is) ≡ drop_phis is
  drop_phis-map is h =
      ap drop_phis (moved-split l (next + 2) is h)
      ∙ drop_phis-moved l (next + 2) is (drop_phis is) h

pub All-splice :
    (R : BasicBlock → Type 0) (l : ℕ) (new bs : List BasicBlock)
    → All R new
    → All R bs
    → All R (splice l new bs)
unfolding splice
All-splice R l new [] h k = tt
All-splice R l new (b ∷ bs) h k = elim (Bool-cases (b.label == l)) [
  | inl v ↦ rw v (All-append R new bs h k.1)
  | inr v ↦ rw (All, v) (k.0, All-splice R l new bs h k.1)
]
