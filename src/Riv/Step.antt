-- ===== src/Riv/Step.antt =====
-- One round of RIV's loop: what `visit_children` does to the map and the stack, read through
-- membership in the set of a block.
use llvm_tutor.Prelude.{ℕ, ◌≡◌, Bool, ◌||◌, ◌&&◌, List, [], ◌∷◌, arith, ltb}
use llvm_tutor.Prelude.Containers.{
  nat_eq, contains, insert_range, modify, lookup, lookup-modify, contains-insert_range,
}
use llvm_tutor.Ir.{Value, value_eq}
use llvm_tutor.Riv.{Forest, nil, cons, Node, RivResult, visit_children}
use llvm_tutor.Riv.Spec.{roots_in}

-- v is in the set of block k.
abbrev pub member : RivResult → ℕ → Value → Bool
member m k v = contains (lookup k [] m) v

pub member-modify_same :
    (l k : ℕ) (m : RivResult) (v : Value) → member (modify l [] (λ s. s) m) k v ≡ member m k v
member-modify_same l k m v = ground (arith, lookup-modify l k [] (λ s. s) m)

-- `visit_children` adds both sets to each root of the forest.
pub member-visit_children :
    (defs rivs : List Value) (fs : Forest) (stack : List Node) (m : RivResult) (k : ℕ) (v : Value)
    → member (visit_children defs rivs fs stack m).1 k v
      ≡ (member m k v || (ltb 0 (roots_in fs k) && (contains defs v || contains rivs v)))
unfolding visit_children roots_in
member-visit_children defs rivs nil stack m k v = ground arith
member-visit_children defs rivs (cons l ds rest) stack m k v =
    let m1 = modify l [] (insert_range defs) m in
    let m2 = modify l [] (insert_range rivs) m1 in
    ground (
      arith,
      member-visit_children defs rivs rest (record { block = l; children = ds } ∷ stack) m2 k v,
      lookup-modify l k [] (insert_range defs) m,
      lookup-modify l l [] (insert_range defs) m,
      lookup-modify l k [] (insert_range rivs) m1,
      contains-insert_range defs (lookup l [] m) v,
      contains-insert_range rivs (insert_range defs (lookup l [] m)) v,
    )
