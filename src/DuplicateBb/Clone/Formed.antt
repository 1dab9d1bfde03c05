-- ===== src/DuplicateBb/Clone/Formed.antt =====
-- What cloneBB may rely on in a block of valid IR: PHI nodes stand at the top, and no operand names
-- an instruction that has no value. P are the registers that operands may name.
use llvm_tutor.Prelude.{
  ℕ, ◌+◌, ◌≤◌, ◌<◌, ◌≡◌, true, inl, inr, some, List, [], ◌∷◌, ◌++◌, All, arith, Bool-cases,
}
use llvm_tutor.Ir.{Opcode, phi, Instruction, BasicBlock}
use llvm_tutor.Ir.Query.{is_phi, last_inst}
use llvm_tutor.Machine.Flow.{drop_phis, front}
use llvm_tutor.Machine.Flow.Live.{Named, IsPlain}
use llvm_tutor.DuplicateBb.Clone.{is_void_ty, remap_as}
use llvm_tutor.DuplicateBb.Clone.Moved.{LabelsBelow}
use llvm_tutor.DuplicateBb.Clone.Loop.{branch_code}

-- No operand may name i, if it has no value.
abbrev pub HasNoUse : (ℕ → Type 0) → Instruction → Type 0
HasNoUse P i = is_void_ty i.ty ≡ true → P i.id → ⊥

abbrev pub Operands : (ℕ → Type 0) → Instruction → Type 0
Operands P i = All (Named P) i.operands

-- All labels of the block, and of its PHI nodes, lie below `next`.
pub record IsFormed (P : ℕ → Type 0) (next : ℕ) (b : BasicBlock) : Type 0 where
  pub label_below : b.label < next
  pub phi_labels : All (λ i. LabelsBelow next i.opcode) b.instructions
  pub operands : All (Operands P) b.instructions
  pub phis_first : IsPlain (drop_phis b.instructions)

-- A block with the terminator i whose instructions are all known before the next unused number, and
-- in which no operand may name an instruction that has no value.
pub record IsReady (P : ℕ → Type 0) (n : ℕ) (b : BasicBlock) (i : Instruction) : Type 0 where
  pub terminated : last_inst (drop_phis b.instructions) ≡ some i
  pub known : All (λ j. j.id < n) b.instructions
  pub void_unused : All (HasNoUse P) b.instructions

module _ (Q : Instruction → Type 0) where
  pub All-drop_phis : (is : List Instruction) → All Q is → All Q (drop_phis is)
  unfolding drop_phis
  All-drop_phis [] h = tt
  All-drop_phis (i ∷ is) h = elim (Bool-cases (is_phi i.opcode)) [
    | inl v ↦ rw (All, v) (All-drop_phis is h.1)
    | inr v ↦ rw (All, v) h
  ]

  pub All-front : (is : List Instruction) → All Q is → All Q (front is)
  unfolding front
  All-front [] h = tt
  All-front (i ∷ []) h = tt
  All-front (i ∷ j ∷ is) h = (h.0, All-front (j ∷ is) h.1)

  pub All-last : (is : List Instruction) (i : Instruction) → All Q (is ++ i ∷ []) → Q i
  All-last [] i h = h.0
  All-last (j ∷ is) i h = All-last is i h.1

labels_mono : (n k : ℕ) (ls : List ℕ) → n ≤ k → All (λ l. l < n) ls → All (λ l. l < k) ls
labels_mono n k [] b h = tt
labels_mono n k (l ∷ ls) b h = (omega (arith, h.0), labels_mono n k ls b h.1)

LabelsBelow-mono : (n k : ℕ) (op : Opcode) → n ≤ k → LabelsBelow n op → LabelsBelow k op
LabelsBelow-mono n k (phi ls) b h = labels_mono n k ls b h
LabelsBelow-mono n k _ b h = tt

pub All-LabelsBelow_mono :
    (n k : ℕ) (is : List Instruction)
    → n ≤ k
    → All (λ i. LabelsBelow n i.opcode) is
    → All (λ i. LabelsBelow k i.opcode) is
All-LabelsBelow_mono n k [] b h = tt
All-LabelsBelow_mono n k (i ∷ is) b h =
    (LabelsBelow-mono n k i.opcode b h.0, All-LabelsBelow_mono n k is b h.1)

pub branch_code-IsPlain :
    (off k : ℕ) (vm : List (ℕ × ℕ)) (is : List Instruction)
    → IsPlain is
    → IsPlain (branch_code off k vm is)
unfolding branch_code remap_as
branch_code-IsPlain off k vm [] h = tt
branch_code-IsPlain off k vm (i ∷ is) h = (h.0, branch_code-IsPlain off (k + 2) _ is h.1)
