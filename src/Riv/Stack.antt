-- ===== src/Riv/Stack.antt =====
-- The stack of RIV's loop: how often it names a block, and what the walk will still add.
use mathlib.Core.Path.{fun_ext}
use llvm_tutor.Prelude.{
  ℕ, ◌+◌, ◌≤◌, ◌<◌, ◌==◌, ◌≡◌, refl, ap, ap₂, ◌∙◌, Bool, false, ◌||◌, ◌&&◌, List, [], ◌∷◌,
  if◌then◌else◌, arith, Bool-cases, inl, inr, ltb,
}
use native.Mathlib.Nat.{zero-add}
use llvm_tutor.Ir.{Value}
use llvm_tutor.Riv.{Forest, nil, cons, Node, RivResult, visit_children}
use llvm_tutor.Riv.Spec.{count_in, roots_in, below_in, visible_in, one_if}

unfoldable pub count_stack : List Node → ℕ → ℕ
count_stack [] k = 0
count_stack (p ∷ ps) k = one_if (p.block == k) + count_in p.children k + count_stack ps k

unfoldable pub below_stack : List Node → ℕ → ℕ
below_stack [] k = 0
below_stack (p ∷ ps) k = count_in p.children k + below_stack ps k

pub below-le-count : (ps : List Node) (k : ℕ) → below_stack ps k ≤ count_stack ps k
unfolding count_stack below_stack
below-le-count [] k = omega arith
below-le-count (p ∷ ps) k = omega (arith, below-le-count ps k)

module _ (defs rivs : List Value) (k : ℕ) where
  pub count-visit_children :
      (fs : Forest) (stack : List Node) (m : RivResult)
      → count_stack (visit_children defs rivs fs stack m).0 k ≡ count_in fs k + count_stack stack k
  unfolding visit_children count_in count_stack
  count-visit_children nil stack m = omega arith
  count-visit_children (cons l ds rest) stack m =
      omega (arith, count-visit_children rest (record { block = l; children = ds } ∷ stack) _)

  pub below-visit_children :
      (fs : Forest) (stack : List Node) (m : RivResult)
      → below_stack (visit_children defs rivs fs stack m).0 k ≡ below_in fs k + below_stack stack k
  unfolding visit_children below_in below_stack
  below-visit_children nil stack m = omega arith
  below-visit_children (cons l ds rest) stack m =
      omega (arith, below-visit_children rest (record { block = l; children = ds } ∷ stack) _)

module _ (defs : ℕ → Value → Bool) where
  -- What the walk adds below one node whose block has the set M l.
  abbrev pub node_visible : (ℕ → Value → Bool) → ℕ → Forest → ℕ → Value → Bool
  node_visible M l ds k v =
      if l == k then M l v else visible_in defs ds (λ u. defs l u || M l u) k v

  unfoldable pub roots_visible : (ℕ → Value → Bool) → Forest → ℕ → Value → Bool
  roots_visible M nil k v = false
  roots_visible M (cons l ds rest) k v = node_visible M l ds k v || roots_visible M rest k v

  unfoldable pub stack_visible : (ℕ → Value → Bool) → List Node → ℕ → Value → Bool
  stack_visible M [] k v = false
  stack_visible M (p ∷ ps) k v = node_visible M p.block p.children k v || stack_visible M ps k v

  or_rotate : (a b c : Bool) → (a || (b || c)) ≡ ((b || a) || c)
  or_rotate a b c = ground arith

  pub visible-visit_children :
      (M : ℕ → Value → Bool) (ds rs : List Value) (fs : Forest) (stack : List Node) (m : RivResult)
      (k : ℕ) (v : Value)
      → stack_visible M (visit_children ds rs fs stack m).0 k v
        ≡ (roots_visible M fs k v || stack_visible M stack k v)
  unfolding visit_children roots_visible stack_visible
  visible-visit_children M ds rs nil stack m k v = refl
  visible-visit_children M ds rs (cons l cs rest) stack m k v =
      visible-visit_children M ds rs rest (record { block = l; children = cs } ∷ stack) _ k v
      ∙ or_rotate (roots_visible M rest k v) (node_visible M l cs k v) (stack_visible M stack k v)

  -- Only the sets of the nodes on the stack matter.
  node_visible_ext :
      (M N : ℕ → Value → Bool) (l : ℕ) (ds : Forest) (k : ℕ) (v : Value)
      → M l ≡ N l
      → node_visible M l ds k v ≡ node_visible N l ds k v
  node_visible_ext M N l ds k v e =
      ap
        (λ (f : Value → Bool).
          if l == k then f v else visible_in defs ds (λ u. defs l u || f u) k v)
        e

  pub stack_visible_ext :
      (M N : ℕ → Value → Bool) (ps : List Node) (k : ℕ) (v : Value)
      → ((l : ℕ) (u : Value) → 0 < count_stack ps l → M l u ≡ N l u)
      → stack_visible M ps k v ≡ stack_visible N ps k v
  unfolding stack_visible count_stack
  stack_visible_ext M N [] k v h = refl
  stack_visible_ext M N (p ∷ ps) k v h =
      ap₂ ◌||◌
        (node_visible_ext M N p.block p.children k v (fun_ext (λ u. h p.block u (ground arith))))
        (stack_visible_ext M N ps k v (λ l u c. h l u (omega arith)))

  pub roots_visible-eq :
      (M : ℕ → Value → Bool) (S : Value → Bool) (fs : Forest) (k : ℕ) (v : Value)
      → ((l : ℕ) (u : Value) → 0 < roots_in fs l → M l u ≡ S u)
      → roots_visible M fs k v ≡ visible_in defs fs S k v
  unfolding roots_visible visible_in roots_in
  roots_visible-eq M S nil k v h = refl
  roots_visible-eq M S (cons l ds rest) k v h =
      ap₂ ◌||◌ (node_visible_ext M (λ j. S) l ds k v (fun_ext (λ u. h l u (ground arith))))
        (roots_visible-eq M S rest k v (λ j u c. h j u (omega arith)))

  or_absorb : (p x y : Bool) → (p || y) ≡ y → (p || (x || y)) ≡ (x || y)
  or_absorb p x y e = ground arith

  -- A root of the forest sees S.
  pub roots_absorbed :
      (S : Value → Bool) (fs : Forest) (k : ℕ) (v : Value)
      → ((ltb 0 (roots_in fs k) && S v) || visible_in defs fs S k v) ≡ visible_in defs fs S k v
  unfolding visible_in roots_in
  roots_absorbed S nil k v = refl
  roots_absorbed S (cons l ds rest) k v = elim (Bool-cases (l == k)) [
    | inl here ↦ rw here (ground arith)
    | inr below ↦ rw (below, zero-add) (or_absorb _ _ _ (roots_absorbed S rest k v))
  ]
