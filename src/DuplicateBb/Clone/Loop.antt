-- ===== src/DuplicateBb/Clone/Loop.antt =====
-- The loop of cloneBB: what it puts into one branch (`off` is 0 for the then branch, 1 for the else
-- branch), and the PHI nodes that it leaves in the tail. Each branch computes what the block did,
-- in its own registers, and the PHI nodes bring the values back.
pub mod Tail
use llvm_tutor.Prelude.{
  ℕ, ◌+◌, ◌==◌, ◌≤◌, ◌<◌, ◌≡◌, ◌≢◌, refl, sym, ap, ap₂, ◌∙◌, Bool, true, false, inl, inr, Option,
  none, some, List, [], ◌∷◌, ◌++◌, if◌then◌else◌, All, arith, Bool-cases,
}
use llvm_tutor.Prelude.Containers.{nat_eq, find, modify, lookup, find-modify}
use llvm_tutor.Ir.{Value, instruction, Opcode, phi, Instruction}
use llvm_tutor.Ir.Query.{incoming_value, last_inst}
use llvm_tutor.Machine.Exec.{Machine, State, update, value_of, result, operand_values, step, exec}
use llvm_tutor.Machine.Flow.{front, assign_phis}
use llvm_tutor.Machine.Flow.Live.{Named}
use llvm_tutor.DuplicateBb.Clone.{
  is_void_ty, VMap, set_vmap, remap_value, remap_values, remap_as, ValueToPhiMap, tail_phi, Clones,
  clone_insts,
}

abbrev pub mapped : VMap → ℕ → ℕ
mapped m j = lookup j j m

-- One branch's clones of a list without terminator, its map at the end, and the PHI nodes.
unfoldable pub branch_code : ℕ → ℕ → VMap → List Instruction → List Instruction
branch_code off k vm [] = []
branch_code off k vm (i ∷ is) =
    remap_as (k + off) vm i ∷ branch_code off (k + 2) (set_vmap i.id (k + off) vm) is

unfoldable pub branch_vmap : ℕ → ℕ → VMap → List Instruction → VMap
branch_vmap off k vm [] = vm
branch_vmap off k vm (i ∷ is) = branch_vmap off (k + 2) (set_vmap i.id (k + off) vm) is

module _ (t e : ℕ) where
  unfoldable pub tail_phis : ℕ → List Instruction → List Instruction
  tail_phis k [] = []
  tail_phis k (i ∷ is) =
      let rest = tail_phis (k + 2) is in if is_void_ty i.ty then rest else tail_phi t e k i ∷ rest

  pub clone_insts-then :
      (k : ℕ) (tm em lm : VMap) (rm : ValueToPhiMap) (is : List Instruction)
      → (clone_insts t e k tm em lm rm is).then_code ≡ branch_code 0 k tm (front is)
  unfolding clone_insts branch_code front
  clone_insts-then k tm em lm rm [] = refl
  clone_insts-then k tm em lm rm (i ∷ []) = refl
  clone_insts-then k tm em lm rm (i ∷ j ∷ is) =
      let none_off : k + 0 ≡ k = omega arith in
      rw none_off (ap (λ c. remap_as k tm i ∷ c) (clone_insts-then (k + 2) _ _ _ _ (j ∷ is)))

  pub clone_insts-else :
      (k : ℕ) (tm em lm : VMap) (rm : ValueToPhiMap) (is : List Instruction)
      → (clone_insts t e k tm em lm rm is).else_code ≡ branch_code 1 k em (front is)
  unfolding clone_insts branch_code front
  clone_insts-else k tm em lm rm [] = refl
  clone_insts-else k tm em lm rm (i ∷ []) = refl
  clone_insts-else k tm em lm rm (i ∷ j ∷ is) =
      ap (λ c. remap_as (k + 1) em i ∷ c) (clone_insts-else (k + 2) _ _ _ _ (j ∷ is))

pub set_vmap-mapped :
    (k c j : ℕ) (m : VMap) → mapped (set_vmap k c m) j ≡ (if k == j then c else mapped m j)
unfolding set_vmap lookup
set_vmap-mapped k c j m = ground (arith, find-modify k j c (λ old. c) m)

module _ {W : Type 0} (m : Machine W) (P : ℕ → Type 0) where
  -- The registers of P hold in s what their images hold in t, which lie below k.
  pub record Tracks (k : ℕ) (vm : VMap) (s t : State W) : Type 0 where
    pub images : (j : ℕ) → P j → (mapped vm j < k) × (s.regs j ≡ t.regs (mapped vm j))
    pub same_world : s.world ≡ t.world

  value_of-Tracks :
      (k : ℕ) (vm : VMap) (s t : State W) (v : Value)
      → Tracks k vm s t
      → Named P v
      → value_of m s.regs v ≡ value_of m t.regs (remap_value vm v)
  value_of-Tracks k vm s t (instruction i) a h = (a.images i h).1
  value_of-Tracks k vm s t _ a h = refl

  operand_values-Tracks :
      (k : ℕ) (vm : VMap) (s t : State W) (vs : List Value)
      → Tracks k vm s t
      → All (Named P) vs
      → operand_values m s.regs vs ≡ operand_values m t.regs (remap_values vm vs)
  unfolding remap_values
  operand_values-Tracks k vm s t [] a h = refl
  operand_values-Tracks k vm s t (v ∷ vs) a h =
      ap₂ ◌∷◌ (value_of-Tracks k vm s t v a h.0) (operand_values-Tracks k vm s t vs a h.1)

  step-Tracks :
      (off k : ℕ) (vm : VMap) (s t : State W) (i : Instruction)
      → off < 2
      → Tracks k vm s t
      → All (Named P) i.operands
      → Tracks
          (k + 2)
          (set_vmap i.id (k + off) vm)
          (step m i s)
          (step m (remap_as (k + off) vm i) t)
  unfolding step remap_as
  step-Tracks off k vm s t i o a h =
      let same =
        ap₂ (result m i.opcode i.ty) (operand_values-Tracks k vm s t i.operands a h) a.same_world in
      record {
        images = λ j p. ground (arith, same, a.images j p, o, set_vmap-mapped i.id (k + off) j vm);
        same_world = ap (λ r. r.1) same;
      }

  -- After its clones, a branch tracks the block.
  pub exec-Tracks :
      (off k : ℕ) (vm : VMap) (s t : State W) (is : List Instruction)
      → off < 2
      → Tracks k vm s t
      → All (λ i. All (Named P) i.operands) is
      → (n : ℕ) × Tracks n
          (branch_vmap off k vm is)
          (exec m is s)
          (exec m (branch_code off k vm is) t)
  unfolding exec branch_code branch_vmap
  exec-Tracks off k vm s t [] o a h = (k, a)
  exec-Tracks off k vm s t (i ∷ is) o a h =
      exec-Tracks off (k + 2) (set_vmap i.id (k + off) vm) (step m i s)
        (step m (remap_as (k + off) vm i) t) is o (step-Tracks off k vm s t i o a h.0) h.1
