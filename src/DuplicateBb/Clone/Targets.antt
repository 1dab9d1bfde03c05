-- ===== src/DuplicateBb/Clone/Targets.antt =====
-- The blocks that findBBsToDuplicate chooses are blocks of the function, each once.
use llvm_tutor.Prelude.{
  ℕ, ◌+◌, ◌≡◌, ◌≢◌, ◌⊎◌, refl, inl, inr, Option, none, some, List, [], ◌∷◌, All, Bool-cases,
}
use llvm_tutor.Prelude.Containers.{nat_eq, lookup}
use llvm_tutor.Ir.{Value, value_eq, BasicBlock}
use llvm_tutor.Riv.{RivResult}
use llvm_tutor.DuplicateBb.{starts_with_pad, context_value, find_bbs_to_duplicate}
use llvm_tutor.DuplicateBb.Clone.All.{Distinct}

abbrev pub DistinctLabels : List BasicBlock → Type 0
DistinctLabels [] = Unit
DistinctLabels (b ∷ bs) = All (λ c. c.label ≢ b.label) bs × DistinctLabels bs

abbrev Picked : ℕ → List (ℕ × Value) → List (ℕ × Value) → List (ℕ × Value) → Type 0
Picked l same drawn ts = (ts ≡ same) ⊎ ((ts ≡ drawn) ⊎ ((w : Value) × (ts ≡ (l, w) ∷ drawn)))

drawn-Picked :
    (l : ℕ) (o : Option Value) (same drawn : List (ℕ × Value))
    → Picked l same drawn
        (elim o as (λ x. List (ℕ × Value)) [ none ↦ drawn | some w ↦ (l, w) ∷ drawn ])
drawn-Picked l none same drawn = inr (inl refl)
drawn-Picked l (some w) same drawn = inr (inr (w, refl))

reached-Picked :
    (l : ℕ) (f : List Value → Option Value) (vs : List Value) (same drawn : List (ℕ × Value))
    → Picked l same drawn (elim vs as (λ x. List (ℕ × Value)) [
      | [] ↦ same
      | v ∷ vs ↦ elim (f (v ∷ vs)) [ none ↦ drawn | some w ↦ (l, w) ∷ drawn ]
    ])
reached-Picked l f [] same drawn = inl refl
reached-Picked l f (v ∷ vs) same drawn = drawn-Picked l (f (v ∷ vs)) same drawn

module _ (draw : ℕ → ℕ → ℕ) (riv : RivResult) where
  find_bbs_to_duplicate-Picked :
      (k : ℕ) (b : BasicBlock) (bs : List BasicBlock)
      → Picked b.label
          (find_bbs_to_duplicate draw riv k bs)
          (find_bbs_to_duplicate draw riv (k + 1) bs)
          (find_bbs_to_duplicate draw riv k (b ∷ bs))
  unfolding find_bbs_to_duplicate
  find_bbs_to_duplicate-Picked k b bs = elim (Bool-cases (starts_with_pad b.instructions)) [
    | inl pad ↦ rw pad (inl refl)
    | inr other ↦
        rw other (reached-Picked b.label (context_value draw riv k) (lookup b.label [] riv) _ _)
  ]

  -- What holds of the labels of all blocks holds of the chosen ones.
  pub find_bbs_to_duplicate-labels :
      (R : ℕ → Type 0) (k : ℕ) (bs : List BasicBlock)
      → All (λ b. R b.label) bs
      → All (λ t. R t.0) (find_bbs_to_duplicate draw riv k bs)
  unfolding find_bbs_to_duplicate
  find_bbs_to_duplicate-labels R k [] h = tt
  find_bbs_to_duplicate-labels R k (b ∷ bs) h = elim (find_bbs_to_duplicate-Picked k b bs) [
    | inl e ↦ rw e (find_bbs_to_duplicate-labels R k bs h.1)
    | inr (inl e) ↦ rw e (find_bbs_to_duplicate-labels R (k + 1) bs h.1)
    | inr (inr (w, e)) ↦ rw e (h.0, find_bbs_to_duplicate-labels R (k + 1) bs h.1)
  ]

  pub find_bbs_to_duplicate-Distinct :
      (k : ℕ) (bs : List BasicBlock)
      → DistinctLabels bs
      → Distinct (find_bbs_to_duplicate draw riv k bs)
  unfolding find_bbs_to_duplicate
  find_bbs_to_duplicate-Distinct k [] h = tt
  find_bbs_to_duplicate-Distinct k (b ∷ bs) h = elim (find_bbs_to_duplicate-Picked k b bs) [
    | inl e ↦ rw e (find_bbs_to_duplicate-Distinct k bs h.1)
    | inr (inl e) ↦ rw e (find_bbs_to_duplicate-Distinct (k + 1) bs h.1)
    | inr (inr (w, e)) ↦ rw e (
      find_bbs_to_duplicate-labels (λ l. l ≢ b.label) (k + 1) bs h.0,
      find_bbs_to_duplicate-Distinct (k + 1) bs h.1,
    )
  ]
