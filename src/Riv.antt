-- ===== src/Riv.antt =====
-- lib/RIV.cpp: the integer values that are reachable from each block. The dominator tree comes from
-- LLVM's DominatorTreeAnalysis and is an argument. The deque is used as a stack: its back is the
-- head of the list. The `while` loop takes fuel, `riv_fuel`.
pub mod Spec
pub mod Step
pub mod Defined
pub mod Loop
pub mod Correct
pub mod Printer
mod Tests
pub mod Stack
use llvm_tutor.Prelude.{ℕ, zero, suc, ◌+◌, Option, none, some, List, [], ◌∷◌, if◌then◌else◌}
use llvm_tutor.Prelude.Containers.{nat_eq, insert, insert_range, modify, lookup}
use llvm_tutor.Ir.{
  Value, value_eq, argument, global, instruction, Ty, is_integer_ty, Instruction, BasicBlock,
  Function, GlobalVariable,
}

-- The children of a dominator tree node, in order: `cons l ds rest` is a node of the block l with
-- the children ds, and then its siblings.
pub data Forest : Type 0 where
  nil : Forest
  cons : ℕ → Forest → Forest → Forest

-- DomTreeNodeBase<BasicBlock>.
pub record Node : Type 0 where
  pub block : ℕ
  pub children : Forest

-- RIV::Result, a MapVector from blocks to sets of values.
abbrev pub RivResult : Type 0
RivResult = List (ℕ × List Value)

-- Values.insert(&Inst) for the integer instructions of a block.
unfoldable pub insert_defined : List Instruction → List Value → List Value
insert_defined [] s = s
insert_defined (i ∷ is) s =
    insert_defined is (if is_integer_ty i.ty then insert (instruction i.id) s else s)

-- STEP 1: DefinedValuesMap.
unfoldable pub defined_values : List BasicBlock → RivResult → RivResult
defined_values [] m = m
defined_values (b ∷ bs) m = defined_values bs (modify b.label [] (insert_defined b.instructions) m)

-- STEP 2: the integer globals, then the integer arguments, into the set of the entry block.
unfoldable pub insert_globals : ℕ → List GlobalVariable → List Value → List Value
insert_globals k [] s = s
insert_globals k (g ∷ gs) s =
    insert_globals (suc k) gs (if is_integer_ty g.value_ty then insert (global k) s else s)

unfoldable pub insert_args : ℕ → List Ty → List Value → List Value
insert_args k [] s = s
insert_args k (t ∷ ts) s =
    insert_args (suc k) ts (if is_integer_ty t then insert (argument k) s else s)

unfoldable pub entry_values : List GlobalVariable → List Ty → List Value
unfolding insert_globals insert_args
entry_values gs args = insert_args 0 args (insert_globals 0 gs [])

-- The `for` loop of STEP 3 over the children of a parent.
unfoldable pub visit_children :
    List Value → List Value → Forest → List Node → RivResult → List Node × RivResult
visit_children defs rivs nil stack m = (stack, m)
visit_children defs rivs (cons l ds rest) stack m =
    visit_children defs rivs rest (record { block = l; children = ds } ∷ stack)
      (modify l [] (insert_range rivs) (modify l [] (insert_range defs) m))

-- The `while` loop of STEP 3. Reading ResultMap[Parent] makes an entry for it if there is none.
unfoldable pub riv_loop : ℕ → RivResult → List Node → RivResult → Option RivResult
riv_loop fuel defined [] m = some m
riv_loop zero defined (p ∷ stack) m = none
riv_loop (suc fuel) defined (p ∷ stack) m =
    let m1 = modify p.block [] (λ s. s) m in
    let next =
      visit_children (lookup p.block [] defined) (lookup p.block [] m1) p.children stack m1 in
    riv_loop fuel defined next.0 next.1

abbrev pub forest_size : Forest → ℕ
forest_size nil = 0
forest_size (cons l ds rest) = 1 + forest_size ds + forest_size rest

-- Each node is taken off the stack once.
abbrev pub riv_fuel : Node → ℕ
riv_fuel root = 1 + forest_size root.children

-- buildRIV(F, CFGRoot); `entry` is the label of F.getEntryBlock().
unfoldable pub build_riv : List GlobalVariable → Function → ℕ → Node → Option RivResult
unfolding riv_loop
build_riv gs f entry root =
    riv_loop (riv_fuel root) (defined_values f.blocks []) (root ∷ [])
      (modify entry [] (λ s. entry_values gs f.args) [])
