-- ===== src/DuplicateBb/Clone/WithRiv.antt =====
-- lib/DuplicateBB.cpp, run, on the result that RIV has for the function.
use llvm_tutor.Prelude.{
  ℕ, ◌≤◌, ◌<◌, ◌≡◌, ◌≢◌, sym, ◌∙◌, true, inl, inr, Option, none, some, List, [], ◌∷◌, All, arith,
  Bool-cases,
}
use llvm_tutor.Ir.{Value, instruction, Ty, BasicBlock, Function, GlobalVariable}
use llvm_tutor.Machine.Exec.{Machine, State}
use llvm_tutor.Machine.Flow.{Terminators, IsBranching, exec_flow}
use llvm_tutor.Machine.Flow.Live.{Named, AgreesOn}
use llvm_tutor.Riv.{Node, RivResult, build_riv}
use llvm_tutor.Riv.Spec.{count_in, strict_dominators, any_defines, by_path}
use llvm_tutor.Riv.Defined.{defines, is_entry_value}
use llvm_tutor.Riv.Correct.{tree, build_riv_exact}
use llvm_tutor.DuplicateBb.Clone.{Utils, run}
use llvm_tutor.DuplicateBb.Clone.Documented.{IsDocumented}
use llvm_tutor.DuplicateBb.Clone.Formed.{IsFormed}
use llvm_tutor.DuplicateBb.Clone.Run.{HasReady, run-preserves}
use llvm_tutor.DuplicateBb.Clone.Targets.{DistinctLabels}

module _ (P : ℕ → Type 0) (bs : List BasicBlock) where
  -- P has all integer instructions of the function.
  abbrev pub HasIntegers : Type 0
  HasIntegers = (l j : ℕ) → defines bs l (instruction j) ≡ true → P j

  any_defines-Named :
      (path : List ℕ) (j : ℕ)
      → HasIntegers
      → any_defines (defines bs) path (instruction j) ≡ true
      → P j
  any_defines-Named [] j f h = absurd (ground (arith, h))
  any_defines-Named (l ∷ ls) j f h = elim (Bool-cases (defines bs l (instruction j))) [
    | inl d ↦ f l j d
    | inr d ↦ any_defines-Named ls j f (ground (arith, h, d))
  ]

  by_path-Named :
      (gs : List GlobalVariable) (args : List Ty) (o : Option (List ℕ)) (v : Value)
      → HasIntegers
      → by_path (defines bs) o (is_entry_value gs args) v ≡ true
      → Named P v
  unfolding is_entry_value
  by_path-Named gs args none v f h = absurd (ground (arith, h))
  by_path-Named gs args (some path) (instruction j) f h = any_defines-Named path j f h
  by_path-Named gs args (some path) _ f h = tt

-- DuplicateBB::run preserves what a function does. The branches of the target machine only choose
-- among their blocks, SplitBlockAndInsertIfThenElse and CreateIsNull do what LLVM documents, RIV
-- ran on a dominator tree that names no block twice, the blocks have different labels and are
-- formed as in valid IR with respect to the registers P that operands name, which lie below the
-- next unused number and have all integer instructions, and every block can be cloned (it has a
-- terminator, its instructions are numbered below the next unused number, and no operand may name
-- an instruction without a value). Then, whatever numbers are drawn, a run that ends, from a block x
-- that is entered from no block of the function, has a counterpart in the new function from the
-- same state, and the final states have the same world and the same values in P.
pub run-build_riv :
    {W : Type 0} (m : Machine W) (leave : Terminators W)
    → IsBranching leave
    → (u : Utils) → IsDocumented m u
    → (draw : ℕ → ℕ → ℕ) (gs : List GlobalVariable) (f : Function) (root : Node) (riv : RivResult)
    → build_riv gs f root.block root ≡ some riv
    → ((k : ℕ) → count_in (tree root) k ≤ 1)
    → (P : ℕ → Type 0) (next_label next_id count : ℕ) → ((j : ℕ) → P j → j < next_id)
    → HasIntegers P f.blocks
    → All (IsFormed P next_label) f.blocks
    → All (HasReady P next_id) f.blocks
    → DistinctLabels f.blocks
    → (fuel x from : ℕ) (s r : State W) → from < next_label
    → All (λ b. b.label ≢ from) f.blocks
    → exec_flow m leave fuel f.blocks from x s ≡ some r
    → (fuel' : ℕ) × (r' : State W) × (exec_flow m leave fuel'
          (run u draw riv next_label next_id count f.blocks).0.blocks
          from
          x
          s
        ≡ some r')
      × AgreesOn P r r'
run-build_riv m leave branching u doc draw gs f root riv e once P next_label next_id count bound
      integers formed ready distinct =
    run-preserves m leave branching u doc draw riv P next_label next_id count f.blocks bound formed
      ready distinct
      (λ l v h.
        by_path-Named P f.blocks gs f.args (strict_dominators (tree root) l) v integers
          (sym (build_riv_exact gs f root riv e once l v) ∙ h))
