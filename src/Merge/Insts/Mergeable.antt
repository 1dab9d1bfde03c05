-- ===== src/Merge/Insts/Mergeable.antt =====
-- What MergeBB::canMergeInstructions decides, its early returns read together.
use llvm_tutor.Prelude.{
  ℕ, ◌≡◌, refl, ◌↔◌, Bool, true, ◌||◌, ◌==◌, ◌⊎◌, inl, inr, List, [], ◌∷◌, arith,
}
use llvm_tutor.Ir.{Value, instruction, same_value_iff, Instruction, BasicBlock}
use llvm_tutor.Ir.Query.{uses}
use llvm_tutor.Ir.Described.{IsIncoming}
use llvm_tutor.Merge.Insts.Successor.{IsSuccessor0, used_in_phi_iff}
use llvm_tutor.Merge.Insts.{used_in_phi, can_remove_inst, same_operands, can_merge_instructions}

same_operands_iff : (vs ws : List Value) → (same_operands vs ws ≡ true) ↔ (vs ≡ ws)
unfolding same_operands
same_operands_iff [] [] = (λ e. refl, λ e. refl)
same_operands_iff [] (w ∷ ws) = grind arith
same_operands_iff (v ∷ vs) [] = grind arith
same_operands_iff (v ∷ vs) (w ∷ ws) = ground (arith, same_operands_iff vs ws, same_value_iff w v)

abbrev can_remove_use : List BasicBlock → ℕ → Instruction → ℕ × Instruction → Bool
can_remove_use bs l i u = used_in_phi bs l i u.0 u.1 || (u.0 == l)

-- The only use of an instruction of block l is in block l, or is a PHI node of its successor that takes it from l.
abbrev pub HasOneRemovableUse : List BasicBlock → ℕ → Instruction → Type 0
HasOneRemovableUse bs l i =
    (u : ℕ × Instruction) × (uses bs i.id ≡ u ∷ [])
    × ((u.0 ≡ l) ⊎ (IsSuccessor0 bs l u.0 × IsIncoming u.1 l (instruction i.id)))

abbrev pub UsesFit : List BasicBlock → ℕ → Instruction → ℕ → Instruction → Type 0
UsesFit bs l1 i1 l2 i2 =
    ((uses bs i1.id ≡ []) × (uses bs i2.id ≡ []))
    ⊎ (HasOneRemovableUse bs l1 i1 × HasOneRemovableUse bs l2 i2)

removable :
    (bs : List BasicBlock) (l : ℕ) (i : Instruction) (u : ℕ × Instruction)
    → uses bs i.id ≡ u ∷ []
    → can_remove_inst bs l i ≡ true
    → HasOneRemovableUse bs l i
unfolding can_remove_inst
removable bs l i u e h =
    let q : can_remove_use bs l i u ≡ true = ground (arith, e, h) in
    (u, e, ground (arith, used_in_phi_iff bs l i u.0 u.1, q))

can_remove_inst-removable :
    (bs : List BasicBlock) (l : ℕ) (i : Instruction)
    → HasOneRemovableUse bs l i
    → can_remove_inst bs l i ≡ true
unfolding can_remove_inst
can_remove_inst-removable bs l i (u, e, h) =
    let q : can_remove_use bs l i u ≡ true = ground (arith, used_in_phi_iff bs l i u.0 u.1, h) in
    ground (arith, e, q)

module _ (so : Instruction → Instruction → Bool) (bs : List BasicBlock) (l1 : ℕ) (i1 : Instruction)
    (l2 : ℕ) (i2 : Instruction) where
  uses_fit :
      (us1 us2 : List (ℕ × Instruction))
      → uses bs i1.id ≡ us1
      → uses bs i2.id ≡ us2
      → can_merge_instructions so bs l1 i1 l2 i2 ≡ true
      → UsesFit bs l1 i1 l2 i2
  unfolding can_merge_instructions
  uses_fit [] [] e1 e2 h = inl (e1, e2)
  uses_fit (u ∷ []) (w ∷ []) e1 e2 h = inr (
    removable bs l1 i1 u e1 (ground (arith, e1, e2, h)),
    removable bs l2 i2 w e2 (ground (arith, e1, e2, h)),
  )
  uses_fit [] (w ∷ ws) e1 e2 h = absurd (ground (arith, e1, e2, h))
  uses_fit (u ∷ []) [] e1 e2 h = absurd (ground (arith, e1, e2, h))
  uses_fit (u ∷ []) (w ∷ x ∷ ws) e1 e2 h = absurd (ground (arith, e1, e2, h))
  uses_fit (u ∷ v ∷ us) ws e1 e2 h = absurd (ground (arith, e1, e2, h))

  merges :
      so i1 i2 ≡ true
      → same_operands i1.operands i2.operands ≡ true
      → UsesFit bs l1 i1 l2 i2
      → can_merge_instructions so bs l1 i1 l2 i2 ≡ true
  unfolding can_merge_instructions
  merges s o (inl (p, q)) = rw (p, q) (ground (arith, s, o))
  merges s o (inr (p, q)) = ground (
    arith,
    s,
    o,
    p.1,
    q.1,
    can_remove_inst-removable bs l1 i1 p,
    can_remove_inst-removable bs l2 i2 q,
  )

  -- Two instructions are mergeable exactly when they are the same operation on equal operands, and
  -- both have no use, or each has one use, in its own block or in a PHI node that stands in the first
  -- successor of that block and takes the instruction from there.
  pub can_merge_instructions_iff :
      (can_merge_instructions so bs l1 i1 l2 i2 ≡ true)
      ↔ ((so i1 i2 ≡ true) × (i1.operands ≡ i2.operands) × UsesFit bs l1 i1 l2 i2)
  can_merge_instructions_iff = (
    λ h. (
      unfold can_merge_instructions in ground (arith, h),
      (same_operands_iff _ _).0 (unfold can_merge_instructions in ground (arith, h)),
      uses_fit _ _ refl refl h,
    ),
    λ p. merges p.0 ((same_operands_iff _ _).1 p.1) p.2,
  )
