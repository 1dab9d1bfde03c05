-- ===== src/DuplicateBb/Clone/Tests.antt =====
-- cloneBB and run on the two blocks of the sample.
use llvm_tutor.Prelude.{
  ℕ, ◌+◌, ◌≤◌, ◌<◌, ◌≡◌, refl, true, inl, inr, Option, none, some, List, [], ◌∷◌, All, arith,
}
use llvm_tutor.Prelude.Containers.{nat_eq, find, lookup, modify, contains}
use llvm_tutor.Ir.{
  Value, value_eq, same_value, argument, instruction, int_ty, BasicBlock, PreservedAnalyses,
}
use llvm_tutor.Ir.Query.{find_block, last_inst, incoming_value}
use llvm_tutor.Machine.Exec.{State, step, exec}
use llvm_tutor.Machine.Flow.{
  take_phis, drop_phis, front, assign_phis, run_code, run_block, exec_flow,
}
use llvm_tutor.Machine.Flow.Live.{Named, AgreesOn}
use llvm_tutor.Riv.{RivResult}
use llvm_tutor.DuplicateBb.{starts_with_pad, advance, find_bbs_to_duplicate}
use llvm_tutor.DuplicateBb.Clone.{
  DupState, set_vmap, remap_values, remap_as, clone_insts, splice, clone_found, clone_bb, clone_all,
  run,
}
use llvm_tutor.DuplicateBb.Clone.Documented.{move}
use llvm_tutor.DuplicateBb.Clone.Formed.{IsFormed, IsReady}
use llvm_tutor.DuplicateBb.Clone.Correct.{clone_bb-preserves}
use llvm_tutor.DuplicateBb.Clone.Targets.{DistinctLabels}
use llvm_tutor.DuplicateBb.Clone.Run.{HasReady, run-counts, run-unchanged}
use llvm_tutor.Ir.{Instruction, binary, add}
use llvm_tutor.DuplicateBb.Clone.WithRiv.{HasIntegers, run-build_riv}
use llvm_tutor.Riv.{
  nil, cons, Node, insert_defined, defined_values, entry_values, visit_children, build_riv,
}
use llvm_tutor.Riv.Spec.{count_in}
use llvm_tutor.Riv.Defined.{block_defines, defines}
use llvm_tutor.Riv.Correct.{tree}
use llvm_tutor.Ir.{Function}
use llvm_tutor.Prelude.{false, wrap_unsigned, length}
use llvm_tutor.Prelude.Containers.{insert, insert_range}
use llvm_tutor.DuplicateBb.Clone.Sample.{
  machine, leave, utils, jump, return, entry, exit, two_blocks, start, nothing, Used, branching,
  documented,
}

-- Control comes from 2, which is no block.
abbrev run_two : List BasicBlock → Option (ℕ × ℕ)
run_two bs = elim (exec_flow machine leave 9 bs 2 0 nothing) [
  | none ↦ none
  | some t ↦ some (t.regs 4, t.world)
]

ran : run_two two_blocks ≡ some (8, 1)
unfolding exec_flow run_block run_code exec step front last_inst drop_phis assign_phis find_block
    incoming_value
ran = refl

cloned : run_two (clone_bb utils 0 (argument 0) start).blocks ≡ some (8, 1)
unfolding exec_flow run_block run_code exec step front last_inst take_phis drop_phis assign_phis
    find_block incoming_value clone_bb clone_found clone_insts splice remap_as remap_values set_vmap
    lookup find modify
cloned = refl

abbrev reachable : RivResult
reachable = (0, argument 0 ∷ []) ∷ (1, instruction 1 ∷ argument 0 ∷ []) ∷ []

abbrev first : ℕ → ℕ → ℕ
first k count = 0

abbrev both : DupState × PreservedAnalyses
both = run utils first reachable 3 6 0 two_blocks

-- Both blocks are cloned, the second with the sum of the first as its context value.
both_cloned : run_two both.0.blocks ≡ some (8, 1)
unfolding exec_flow run_block run_code exec step front last_inst take_phis drop_phis assign_phis
    find_block incoming_value run clone_all clone_bb clone_found clone_insts splice remap_as
    remap_values set_vmap lookup find modify find_bbs_to_duplicate starts_with_pad advance
    same_value
both_cloned = refl

both_counted : both.0.duplicate_bb_count ≡ 2
unfolding take_phis drop_phis find_block run clone_all clone_bb clone_found clone_insts splice
    remap_as remap_values set_vmap lookup find modify find_bbs_to_duplicate starts_with_pad advance
    same_value
both_counted = refl

below : (j : ℕ) → Used j → j < 6
below j (inl e) = omega (arith, e)
below j (inr e) = omega (arith, e)

formed : All (IsFormed Used 3) two_blocks
unfolding drop_phis
formed = (
  record {
    label_below = omega arith;
    phi_labels = (tt, (tt, (tt, tt)));
    operands = ((tt, (tt, tt)), ((inl refl, tt), ((tt, tt), tt)));
    phis_first = (refl, (refl, (refl, tt)));
  },
  (
    record {
      label_below = omega arith;
      phi_labels = ((omega arith, tt), (tt, tt));
      operands = ((inl refl, tt), ((inr refl, tt), tt));
      phis_first = (refl, tt);
    },
    tt,
  ),
)

entry-IsReady : IsReady Used 6 entry jump
unfolding drop_phis last_inst
entry-IsReady = record {
  terminated = refl;
  known = (omega arith, (omega arith, (omega arith, tt)));
  void_unused = (λ v p. ground arith, (λ v p. ground arith, (λ v p. ground arith, tt)));
}

exit-IsReady : IsReady Used 6 exit return
unfolding drop_phis last_inst
exit-IsReady = record {
  terminated = refl;
  known = (omega arith, (omega arith, tt));
  void_unused = (λ v p. ground arith, (λ v p. ground arith, tt));
}

ready : All (HasReady Used 6) two_blocks
ready = ((jump, entry-IsReady), ((return, exit-IsReady), tt))

distinct : DistinctLabels two_blocks
distinct = ((λ e. ground (arith, e), tt), (tt, tt))

known : (l : ℕ) (v : Value) → contains (lookup l [] reachable) v ≡ true → Named Used v
unfolding contains lookup find same_value
known l (instruction i) h = inl (ground (arith, h))
known l v h = tt

ended : (r : State ℕ) × (exec_flow machine leave 2 two_blocks 2 0 nothing ≡ some r)
unfolding exec_flow run_block run_code exec step front last_inst drop_phis assign_phis find_block
    incoming_value
ended = (_, refl)

same : AgreesOn Used nothing nothing
same = record { registers = λ j p. refl; same_world = refl }

found : find_block 0 two_blocks ≡ some entry
unfolding find_block
found = refl

clone_bb-preserves_example :
    (fuel' : ℕ) × (r' : State ℕ) × (fuel' ≤ 6)
    × (exec_flow machine leave fuel'
          (clone_bb utils 0 (argument 0) start).blocks
          (move 0 5 2)
          0
          nothing
        ≡ some r')
    × AgreesOn Used ended.0 r'
clone_bb-preserves_example =
    clone_bb-preserves machine leave branching utils documented Used (argument 0) start below formed
      0 entry jump found entry-IsReady 2 0 2 nothing nothing ended.0 (omega arith) same ended.1

run-counts_example :
    both.0.duplicate_bb_count
    ≡ wrap_unsigned (0 + length (find_bbs_to_duplicate first reachable 0 two_blocks))
run-counts_example =
    run-counts machine utils documented first reachable Used 3 6 0 two_blocks below formed ready
      distinct known (omega arith)

abbrev two : Function
two = record { id = 0; name = "two"; args = int_ty 32 ∷ []; blocks = two_blocks; opt_none = false }

abbrev root : Node
root = record { block = 0; children = cons 1 nil nil }

riv_reachable : build_riv [] two 0 root ≡ some reachable
unfolding build_riv defined_values insert_defined entry_values visit_children insert insert_range
    modify lookup find same_value
riv_reachable = refl

once : (k : ℕ) → count_in (tree root) k ≤ 1
unfolding count_in
once k = ground arith

integers : HasIntegers Used two_blocks
unfolding defines block_defines same_value
integers l j h = ground (arith, h)

run-build_riv_example :
    (fuel' : ℕ) × (r' : State ℕ) × (exec_flow machine leave fuel' both.0.blocks 2 0 nothing
      ≡ some r')
    × AgreesOn Used ended.0 r'
run-build_riv_example =
    run-build_riv machine leave branching utils documented first [] two root reachable riv_reachable
      once Used 3 6 0 below integers formed ready distinct 2 0 2 nothing ended.0 (omega arith)
      (λ e. ground (arith, e), (λ e. ground (arith, e), tt)) ended.1

-- No values reach the blocks, so none is chosen.
run-unchanged_example :
    ((run utils first [] 3 6 0 two_blocks).0.blocks ≡ two_blocks)
    × ((run utils first [] 3 6 0 two_blocks).0.duplicate_bb_count ≡ 0)
unfolding run find_bbs_to_duplicate starts_with_pad lookup find
run-unchanged_example = run-unchanged utils first [] 3 6 0 two_blocks refl

-- A sum of the first argument, before the terminator of the sample's first block.
abbrev sum : Instruction
sum = record { id = 4; opcode = binary add; ty = int_ty 32; operands = argument 0 ∷ [] }

-- As if the argument had been replaced by a PHI node, 5.
abbrev remapped : DupState
remapped = record start { re_mapper = (argument 0, instruction 5) ∷ [] }
