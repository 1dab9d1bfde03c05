-- ===== src/Riv/Loop.antt =====
-- RIV's loop: enough fuel gives a result, and the result is what the walk adds up.
use llvm_tutor.Prelude.{
  ℕ, zero, suc, ◌+◌, ◌≤◌, ◌<◌, ◌≡◌, refl, ◌∙◌, Bool, false, ◌||◌, ◌&&◌, some, List, [], ◌∷◌, arith,
  ltb,
}
use llvm_tutor.Prelude.Containers.{nat_eq, contains, modify, lookup}
use llvm_tutor.Ir.{Value, value_eq}
use llvm_tutor.Riv.{Forest, nil, cons, Node, RivResult, visit_children, riv_loop, forest_size}
use llvm_tutor.Riv.Spec.{roots_in, visible_in, visible-absent, count-roots-below}
use llvm_tutor.Riv.Step.{member, member-modify_same, member-visit_children}
use llvm_tutor.Riv.Stack.{
  count_stack, below_stack, below-le-count, count-visit_children, below-visit_children,
  roots_visible, stack_visible, visible-visit_children, stack_visible_ext, roots_visible-eq,
  roots_absorbed,
}

-- Each round takes one node off and puts its children on.
abbrev pub stack_size : List Node → ℕ
stack_size [] = 0
stack_size (p ∷ ps) = 1 + forest_size p.children + stack_size ps

size-visit_children :
    (defs rivs : List Value) (fs : Forest) (stack : List Node) (m : RivResult)
    → stack_size (visit_children defs rivs fs stack m).0 ≡ forest_size fs + stack_size stack
unfolding visit_children
size-visit_children defs rivs nil stack m = omega arith
size-visit_children defs rivs (cons l ds rest) stack m =
    omega
      (arith, size-visit_children defs rivs rest (record { block = l; children = ds } ∷ stack) _)

pub riv_loop_total :
    (fuel : ℕ) (defined : RivResult) (stack : List Node) (m : RivResult)
    → stack_size stack ≤ fuel
    → (r : RivResult) × (riv_loop fuel defined stack m ≡ some r)
unfolding riv_loop
riv_loop_total zero defined [] m h = (m, refl)
riv_loop_total (suc fuel) defined [] m h = (m, refl)
riv_loop_total zero defined (p ∷ ps) m h = absurd (omega arith)
riv_loop_total (suc fuel) defined (p ∷ ps) m h =
    let defs = lookup p.block [] defined in
    let m1 = modify p.block [] (λ s. s) m in
    let rivs = lookup p.block [] m1 in
    riv_loop_total fuel defined (visit_children defs rivs p.children ps m1).0
      (visit_children defs rivs p.children ps m1).1
      (omega (arith, size-visit_children defs rivs p.children ps m1))

-- Each block is named once, and a block below the stack has no set yet.
pub record IsFresh (stack : List Node) (m : RivResult) : Type 0 where
  pub once : (k : ℕ) → count_stack stack k ≤ 1
  pub empty : (k : ℕ) (v : Value) → 0 < below_stack stack k → member m k v ≡ false

or_collapse :
    (a t g w s : Bool) → ((t && g) || w) ≡ w → ((a || (t && g)) || (w || s)) ≡ (a || (w || s))
or_collapse a t g w s e = ground arith

or_false : (a : Bool) → a ≡ (a || false)
or_false a = ground arith

some_eq : {m r : RivResult} → some m ≡ some r → m ≡ r
some_eq e = cc

module _ (defined : RivResult) (p : Node) (ps : List Node) (m : RivResult) where
  abbrev defs : List Value
  defs = lookup p.block [] defined

  abbrev m1 : RivResult
  m1 = modify p.block [] (λ s. s) m

  abbrev rivs : List Value
  rivs = lookup p.block [] m1

  abbrev next : List Node × RivResult
  next = visit_children defs rivs p.children ps m1

  -- What the children of p see.
  abbrev seen : Value → Bool
  seen v = contains defs v || member m p.block v

  member-next :
      (k : ℕ) (v : Value)
      → member next.1 k v ≡ (member m k v || (ltb 0 (roots_in p.children k) && seen v))
  member-next k v = ground (
    arith,
    member-visit_children defs rivs p.children ps m1 k v,
    member-modify_same p.block k m v,
    member-modify_same p.block p.block m v,
  )

  IsFresh-next : IsFresh (p ∷ ps) m → IsFresh next.0 next.1
  unfolding count_stack below_stack
  IsFresh-next h = record {
    once = λ k. omega (arith, h.once k, count-visit_children defs rivs k p.children ps m1);
    empty = λ k v pos. ground (
      arith,
      member-next k v,
      h.once k,
      h.empty k v,
      below-visit_children defs rivs k p.children ps m1,
      count-roots-below p.children k,
      below-le-count ps k,
    );
  }

  -- The children see `seen`, and the rest of the stack what it saw before.
  children_see :
      IsFresh (p ∷ ps) m
      → (k : ℕ) (v : Value)
      → roots_visible (member defined) (member next.1) p.children k v
        ≡ visible_in (member defined) p.children seen k v
  unfolding count_stack below_stack
  children_see h k v =
      roots_visible-eq (member defined) (member next.1) seen p.children k v
        λ l u pos. ground (arith, member-next l u, h.empty l u, count-roots-below p.children l)

  others_see :
      IsFresh (p ∷ ps) m
      → (k : ℕ) (v : Value)
      → stack_visible (member defined) (member next.1) ps k v
        ≡ stack_visible (member defined) (member m) ps k v
  unfolding count_stack
  others_see h k v =
      stack_visible_ext (member defined) (member next.1) (member m) ps k v
        λ l u pos. ground (arith, member-next l u, h.once l, count-roots-below p.children l)

  round_collects :
      IsFresh (p ∷ ps) m
      → (k : ℕ) (v : Value)
      → (member next.1 k v || stack_visible (member defined) (member next.1) next.0 k v) ≡ (
          member m k v
          || (visible_in (member defined) p.children seen k v
              || stack_visible (member defined) (member m) ps k v))
  round_collects h k v =
      rw
        (
          visible-visit_children (member defined) (member next.1) defs rivs p.children ps m1 k v,
          children_see h k v,
          others_see h k v,
          member-next k v,
        )
        (or_collapse (member m k v) (ltb 0 (roots_in p.children k)) (seen v) _ _
          (roots_absorbed (member defined) seen p.children k v))

  -- One round: what was there, what p passes on, and what the rest of the stack adds.
  round_adds :
      IsFresh (p ∷ ps) m
      → (k : ℕ) (v : Value)
      → (member next.1 k v || stack_visible (member defined) (member next.1) next.0 k v)
        ≡ (member m k v || stack_visible (member defined) (member m) (p ∷ ps) k v)
  unfolding stack_visible count_stack
  round_adds h k v =
      rw (round_collects h k v)
        (ground (arith, h.once k, visible-absent (member defined) p.children seen k v))

member_done :
    (defined m r : RivResult)
    → m ≡ r
    → (k : ℕ) (v : Value)
    → member r k v ≡ (member m k v || stack_visible (member defined) (member m) [] k v)
unfolding stack_visible
member_done defined m r e k v = rw e (or_false (member r k v))

pub member-riv_loop :
    (fuel : ℕ) (defined : RivResult) (stack : List Node) (m r : RivResult)
    → IsFresh stack m
    → riv_loop fuel defined stack m ≡ some r
    → (k : ℕ) (v : Value)
    → member r k v ≡ (member m k v || stack_visible (member defined) (member m) stack k v)
unfolding riv_loop
member-riv_loop zero defined [] m r h e k v = member_done defined m r (some_eq e) k v
member-riv_loop (suc fuel) defined [] m r h e k v = member_done defined m r (some_eq e) k v
member-riv_loop zero defined (p ∷ ps) m r h e k v = cc
member-riv_loop (suc fuel) defined (p ∷ ps) m r h e k v =
    member-riv_loop fuel defined (next defined p ps m).0 (next defined p ps m).1 r
      (IsFresh-next defined p ps m h) e k v
    ∙ round_adds defined p ps m h k v
