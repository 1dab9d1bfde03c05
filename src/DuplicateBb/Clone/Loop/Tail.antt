-- ===== src/DuplicateBb/Clone/Loop/Tail.antt =====
-- What the loop of cloneBB leaves of the tail: a PHI node for each instruction that has a value, and
-- the terminator.
use llvm_tutor.Prelude.{
  ℕ, ◌+◌, ◌<◌, ◌≡◌, ◌≢◌, refl, ap, ap₂, ◌∙◌, true, inl, inr, some, List, [], ◌∷◌, ◌++◌, All, arith,
  Bool-cases,
}
use llvm_tutor.Prelude.Containers.{nat_eq}
use llvm_tutor.Ir.{Value, instruction, Instruction}
use llvm_tutor.Ir.Query.{incoming_value, last_inst}
use llvm_tutor.Machine.Exec.{Machine, update}
use llvm_tutor.Machine.Flow.{drop_phis, front, assign_phis}
use llvm_tutor.Machine.Flow.Live.{IsPlain, drop_phis-IsPlain}
use llvm_tutor.DuplicateBb.Clone.{
  is_void_ty, VMap, set_vmap, remap_values, remap_as, ValueToPhiMap, tail_phi, clone_insts,
}
use llvm_tutor.DuplicateBb.Clone.Moved.{assign_phis-IsPlain}
use llvm_tutor.DuplicateBb.Clone.Loop.{mapped, branch_vmap, tail_phis, set_vmap-mapped}

-- TailVMap maps an instruction to the PHI node with its number.
abbrev IsIdentity : VMap → Type 0
IsIdentity m = (j : ℕ) → mapped m j ≡ j

set_vmap-IsIdentity : (k : ℕ) (m : VMap) → IsIdentity m → IsIdentity (set_vmap k k m)
set_vmap-IsIdentity k m h j = ground (arith, set_vmap-mapped k k j m, h j)

remap_values-IsIdentity : (m : VMap) (vs : List Value) → IsIdentity m → remap_values m vs ≡ vs
unfolding remap_values
remap_values-IsIdentity m [] h = refl
remap_values-IsIdentity m (instruction i ∷ vs) h =
    ap₂ (λ j ws. instruction j ∷ ws) (h i) (remap_values-IsIdentity m vs h)
remap_values-IsIdentity m (v ∷ vs) h = ap (λ ws. v ∷ ws) (remap_values-IsIdentity m vs h)

remap_as-IsIdentity : (m : VMap) (i : Instruction) → IsIdentity m → remap_as i.id m i ≡ i
unfolding remap_as
remap_as-IsIdentity m i h = let same = remap_values-IsIdentity m i.operands h in rw same refl

pub clone_insts-tail :
    (t e k : ℕ) (tm em lm : VMap) (rm : ValueToPhiMap) (is : List Instruction) (i : Instruction)
    → IsIdentity lm
    → last_inst is ≡ some i
    → (clone_insts t e k tm em lm rm is).tail_code ≡ tail_phis t e k (front is) ++ i ∷ []
unfolding clone_insts tail_phis front last_inst
clone_insts-tail t e k tm em lm rm [] i h x = absurd (ground (arith, x))
clone_insts-tail t e k tm em lm rm (j ∷ []) i h x =
    let same : j ≡ i = ground (arith, x) in ap (λ u. u ∷ []) (remap_as-IsIdentity lm j h ∙ same)
clone_insts-tail t e k tm em lm rm (j ∷ l ∷ is) i h x = elim (Bool-cases (is_void_ty j.ty)) [
  | inl v ↦ rw v (clone_insts-tail t e (k + 2) _ _ lm _ (l ∷ is) i h x)
  | inr v ↦ rw v (
      ap (λ c. tail_phi t e k j ∷ c)
        (clone_insts-tail t e (k + 2) _ _ (set_vmap j.id j.id lm) _ (l ∷ is) i
          (set_vmap-IsIdentity j.id lm h) x))
]

pub drop_phis-tail_phis :
    (t e k : ℕ) (is suffix : List Instruction)
    → IsPlain suffix
    → drop_phis (tail_phis t e k is ++ suffix) ≡ suffix
unfolding tail_phis drop_phis
drop_phis-tail_phis t e k [] suffix h = (drop_phis-IsPlain suffix h).0
drop_phis-tail_phis t e k (i ∷ is) suffix h =
    let rest = drop_phis-tail_phis t e (k + 2) is suffix h in
    elim (Bool-cases (is_void_ty i.ty)) [ inl v ↦ rw v rest | inr v ↦ rw v rest ]

pub branch_vmap-avoids :
    (P : ℕ → Type 0) (off k c : ℕ) (vm : VMap) (is : List Instruction)
    → c < k
    → ((j : ℕ) → P j → mapped vm j ≢ c)
    → (j : ℕ) → P j
    → mapped (branch_vmap off k vm is) j ≢ c
unfolding branch_vmap
branch_vmap-avoids P off k c vm [] b h j p = h j p
branch_vmap-avoids P off k c vm (i ∷ is) b h j p =
    branch_vmap-avoids P off (k + 2) c (set_vmap i.id (k + off) vm) is (omega arith)
      (λ x q. ground (arith, set_vmap-mapped i.id (k + off) x vm, h x q)) j p

-- The PHI nodes take the branch's values, if they find the branch's number `off`.
pub assign_phis-tail_phis :
    {W : Type 0} (m : Machine W) (P : ℕ → Type 0) (t e off from : ℕ) (regs : ℕ → ℕ)
    → ((k : ℕ)
        → incoming_value (t ∷ e ∷ []) (instruction k ∷ instruction (k + 1) ∷ []) from
          ≡ some (instruction (k + off)))
    → (suffix : List Instruction) → IsPlain suffix
    → (k : ℕ) (vm : VMap) (is : List Instruction)
    → All (λ i. is_void_ty i.ty ≡ true → P i.id → ⊥) is
    → (q : ℕ → ℕ) → ((j : ℕ) → P j → q j ≡ regs (mapped vm j))
    → (j : ℕ) → P j
    → assign_phis m regs from (tail_phis t e k is ++ suffix) q j
      ≡ regs (mapped (branch_vmap off k vm is) j)
unfolding tail_phis branch_vmap assign_phis
assign_phis-tail_phis m P t e off from regs c suffix h k vm [] v q r j p =
    ap (λ g. g j) (assign_phis-IsPlain m P regs from suffix q h) ∙ r j p
assign_phis-tail_phis m P t e off from regs c suffix h k vm (i ∷ is) v q r j p =
    elim (Bool-cases (is_void_ty i.ty)) [
      | inl void ↦ rw void (
          assign_phis-tail_phis m P t e off from regs c suffix h (k + 2)
            (set_vmap i.id (k + off) vm) is v.1 q
            (λ x y. ground (arith, r x y, set_vmap-mapped i.id (k + off) x vm, v.0 void)) j p)
      | inr void ↦
          let found = c k in
          rw (void, found)
            (assign_phis-tail_phis m P t e off from regs c suffix h (k + 2)
              (set_vmap i.id (k + off) vm) is v.1 (update q i.id (regs (k + off)))
              (λ x y. ground (arith, r x y, set_vmap-mapped i.id (k + off) x vm)) j p)
    ]
