-- ===== src/Riv/Correct.antt =====
-- The result of RIV on a function: total, and exactly what the strict dominators define.
use mathlib.Core.Path.{fun_ext}
use llvm_tutor.Prelude.{
  ℕ, ◌≤◌, ◌==◌, ◌≡◌, ap₂, ◌∙◌, Bool, false, ◌||◌, ◌&&◌, some, List, [], ◌∷◌, arith,
}
use llvm_tutor.Prelude.Containers.{nat_eq, contains, modify, lookup, lookup-modify}
use llvm_tutor.Ir.{Value, value_eq, Function, GlobalVariable}
use llvm_tutor.Riv.{
  Forest, nil, cons, Node, RivResult, riv_fuel, defined_values, entry_values, build_riv,
}
use llvm_tutor.Riv.Spec.{count_in, visible_in, by_path, strict_dominators, visible-by_path}
use llvm_tutor.Riv.Step.{member}
use llvm_tutor.Riv.Stack.{count_stack, below_stack, stack_visible}
use llvm_tutor.Riv.Loop.{IsFresh, riv_loop_total, member-riv_loop}
use llvm_tutor.Riv.Defined.{defines, member-defined_values, is_entry_value, contains-entry_values}

or_false : (a : Bool) → (a || false) ≡ a
or_false a = ground arith

-- The whole dominator tree as a forest of one root.
abbrev pub tree : Node → Forest
tree root = cons root.block root.children nil

-- The loop ends within one round for each node of the dominator tree: `build_riv` has a result.
pub build_riv_total :
    (gs : List GlobalVariable) (f : Function) (entry : ℕ) (root : Node)
    → (r : RivResult) × (build_riv gs f entry root ≡ some r)
unfolding build_riv
build_riv_total gs f entry root =
    riv_loop_total (riv_fuel root) (defined_values f.blocks []) (root ∷ []) _ (omega arith)

module _ (gs : List GlobalVariable) (f : Function) (root : Node) where
  abbrev start : RivResult
  start = modify root.block [] (λ s. entry_values gs f.args) []

  member-start :
      (k : ℕ) (v : Value) → member start k v ≡ (root.block == k && is_entry_value gs f.args v)
  unfolding contains lookup
  member-start k v = ground (
    arith,
    lookup-modify root.block k [] (λ s. entry_values gs f.args) [],
    contains-entry_values gs f.args v,
  )

  IsFresh-start : ((k : ℕ) → count_in (tree root) k ≤ 1) → IsFresh (root ∷ []) start
  unfolding count_in count_stack below_stack
  IsFresh-start once = record {
    once = λ k. omega (arith, once k);
    empty = λ k v pos. ground (arith, member-start k v, once k);
  }

  module _ (once : (k : ℕ) → count_in (tree root) k ≤ 1) where
    -- The walk from the start adds up, block by block, what the tree shows.
    walk_sums :
        (k : ℕ) (v : Value)
        → (member start k v
            || stack_visible (member (defined_values f.blocks [])) (member start) (root ∷ []) k v)
          ≡ visible_in
              (member (defined_values f.blocks []))
              (tree root)
              (member start root.block)
              k
              v
    unfolding stack_visible visible_in
    walk_sums k v = ground (arith, member-start k v, member-start root.block v)

    start_set : member start root.block ≡ is_entry_value gs f.args
    start_set = fun_ext (λ v. ground (arith, member-start root.block v))

    defined_sets : member (defined_values f.blocks []) ≡ defines f.blocks
    unfolding contains lookup
    defined_sets = fun_ext (λ l. fun_ext (λ v. member-defined_values f.blocks [] l v ∙ or_false _))

  -- The set of a block k of the dominator tree, which names no block twice, holds a value exactly
  -- when it is an integer global or argument, or an integer instruction of a strict dominator of k;
  -- a block that is not in the tree has no value.
  pub build_riv_exact :
      (r : RivResult)
      → build_riv gs f root.block root ≡ some r
      → ((k : ℕ) → count_in (tree root) k ≤ 1)
      → (k : ℕ) (v : Value)
      → contains (lookup k [] r) v
        ≡ by_path (defines f.blocks) (strict_dominators (tree root) k) (is_entry_value gs f.args) v
  unfolding build_riv
  build_riv_exact r e once k v =
      member-riv_loop (riv_fuel root) (defined_values f.blocks []) (root ∷ []) start r
        (IsFresh-start once) e k v
      ∙ walk_sums once k v
      ∙ visible-by_path (member (defined_values f.blocks [])) (tree root) (member start root.block)
          k v (once k)
      ∙ ap₂ (λ d s. by_path d (strict_dominators (tree root) k) s v) (defined_sets once)
          (start_set once)
