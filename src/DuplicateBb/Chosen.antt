-- ===== src/DuplicateBb/Chosen.antt =====
-- What findBBsToDuplicate chooses, by itself and from the result of RIV.
use llvm_tutor.Prelude.{
  ℕ, zero, suc, ◌+◌, ◌≤◌, ◌<◌, ◌≡◌, refl, sym, ap, ◌∙◌, true, false, inl, inr, Option, none, some,
  List, [], ◌∷◌, if◌then◌else◌, length, All, arith, Bool-cases,
}
use llvm_tutor.Prelude.Containers.{nat_eq, contains, lookup}
use llvm_tutor.Ir.{Value, value_eq, same_value_iff, BasicBlock, Function, GlobalVariable}
use llvm_tutor.Riv.{Node, RivResult, build_riv}
use llvm_tutor.Riv.Spec.{count_in, strict_dominators, by_path}
use llvm_tutor.Riv.Defined.{defines, is_entry_value}
use llvm_tutor.Riv.Correct.{tree, build_riv_exact}
use llvm_tutor.DuplicateBb.{
  starts_with_pad, advance, is_global_value, context_value, find_bbs_to_duplicate,
}

advance-found : (k : ℕ) (vs : List Value) (v : Value) → advance k vs ≡ some v → contains vs v ≡ true
unfolding advance contains
advance-found k [] v h = absurd (ground (arith, h))
advance-found zero (w ∷ ws) v h =
    let same : w ≡ v = ground (arith, h) in ground (arith, (same_value_iff w v).1 same)
advance-found (suc k) (w ∷ ws) v h = ground (arith, advance-found k ws v h)

advance-in_range : (k : ℕ) (vs : List Value) → k < length vs → (v : Value) × (advance k vs ≡ some v)
unfolding advance
advance-in_range k [] h = absurd (omega arith)
advance-in_range zero (w ∷ ws) h = (w, refl)
advance-in_range (suc k) (w ∷ ws) h = advance-in_range k ws (omega arith)

module _ (draw : ℕ → ℕ → ℕ) (riv : RivResult) where
  -- A chosen value reaches the block, and is no global.
  abbrev pub IsContext : ℕ × Value → Type 0
  IsContext (l, v) = (contains (lookup l [] riv) v ≡ true) × (is_global_value v ≡ false)

  drawn-IsContext :
      (l : ℕ) (vs : List Value) (o : Option Value) (v : Value)
      → lookup l [] riv ≡ vs
      → ((u : Value) → o ≡ some u → contains vs u ≡ true)
      → (elim o as (λ x. Option Value) [
        | none ↦ none
        | some u ↦ if is_global_value u then none else some u
      ])
        ≡ some v
      → IsContext (l, v)
  drawn-IsContext l vs none v e f h = absurd (ground (arith, h))
  drawn-IsContext l vs (some u) v e f h = elim (Bool-cases (is_global_value u)) [
    | inl g ↦ absurd (ground (arith, h, g))
    | inr g ↦
        let same : u ≡ v = ground (arith, h, g) in
        (
          ap (λ s. contains s v) e ∙ sym (ap (contains vs) same) ∙ f u refl,
          sym (ap is_global_value same) ∙ g,
        )
  ]

  context_value-IsContext :
      (k l : ℕ) (vs : List Value) (v : Value)
      → lookup l [] riv ≡ vs
      → context_value draw riv k vs ≡ some v
      → IsContext (l, v)
  context_value-IsContext k l vs v e h =
      drawn-IsContext l vs (advance (draw k (length vs)) vs) v e
        (advance-found (draw k (length vs)) vs) h

  chosen-All :
      (k : ℕ) (b : BasicBlock) (vs : List Value) (o : Option Value) (drawn : List (ℕ × Value))
      → lookup b.label [] riv ≡ vs
      → context_value draw riv k vs ≡ o
      → All IsContext drawn
      → All IsContext
          (elim o as (λ x. List (ℕ × Value)) [ none ↦ drawn | some w ↦ (b.label, w) ∷ drawn ])
  chosen-All k b vs none drawn e h a = a
  chosen-All k b vs (some w) drawn e h a = (context_value-IsContext k b.label vs w e h, a)

  reached-All :
      (k : ℕ) (b : BasicBlock) (vs : List Value) (same drawn : List (ℕ × Value))
      → lookup b.label [] riv ≡ vs
      → All IsContext same
      → All IsContext drawn
      → All IsContext (elim vs as (λ x. List (ℕ × Value)) [
        | [] ↦ same
        | v ∷ vs ↦ elim (context_value draw riv k (v ∷ vs)) [
          | none ↦ drawn
          | some w ↦ (b.label, w) ∷ drawn
        ]
      ])
  reached-All k b [] same drawn e a c = a
  reached-All k b (v ∷ vs) same drawn e a c = chosen-All k b (v ∷ vs) _ drawn e refl c

  -- All chosen blocks come with a value that reaches them and is no global.
  pub find_bbs_to_duplicate-All :
      (k : ℕ) (bs : List BasicBlock) → All IsContext (find_bbs_to_duplicate draw riv k bs)
  unfolding find_bbs_to_duplicate
  find_bbs_to_duplicate-All k [] = _
  find_bbs_to_duplicate-All k (b ∷ bs) = elim (Bool-cases (starts_with_pad b.instructions)) [
    | inl pad ↦ rw pad (find_bbs_to_duplicate-All k bs)
    | inr other ↦ rw other (
        reached-All k b (lookup b.label [] riv) _ _ refl (find_bbs_to_duplicate-All k bs)
          (find_bbs_to_duplicate-All (k + 1) bs))
  ]

All-map :
    (P Q : ℕ × Value → Type 0) (xs : List (ℕ × Value))
    → ((l : ℕ) (v : Value) → P (l, v) → Q (l, v))
    → All P xs
    → All Q xs
All-map P Q [] f a = _
All-map P Q ((l, v) ∷ xs) f (a, more) = (f l v a, All-map P Q xs f more)

-- The value chosen for a block is an integer argument of the function, or an integer instruction
-- of a strict dominator of the block, if RIV ran on a dominator tree that names no block twice.
pub find_bbs_to_duplicate-dominated :
    (draw : ℕ → ℕ → ℕ) (gs : List GlobalVariable) (f : Function) (root : Node) (r : RivResult)
    → build_riv gs f root.block root ≡ some r
    → ((k : ℕ) → count_in (tree root) k ≤ 1)
    → All
        (λ p.
          (by_path
              (defines f.blocks)
              (strict_dominators (tree root) p.0)
              (is_entry_value gs f.args)
              p.1
            ≡ true)
          × (is_global_value p.1 ≡ false))
        (find_bbs_to_duplicate draw r 0 f.blocks)
find_bbs_to_duplicate-dominated draw gs f root r e once =
    All-map _ _ (find_bbs_to_duplicate draw r 0 f.blocks)
      (λ l v h. (sym (build_riv_exact gs f root r e once l v) ∙ h.0, h.1))
      (find_bbs_to_duplicate-All draw r 0 f.blocks)
