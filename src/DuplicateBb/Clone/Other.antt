-- ===== src/DuplicateBb/Clone/Other.antt =====
-- The other blocks of the function, in which only the PHI nodes change.
use llvm_tutor.Prelude.{
  ℕ, ◌+◌, ◌<◌, ◌≡◌, sym, ap, ◌∙◌, inl, inr, some, List, [], ◌∷◌, ◌++◌, map, arith, Option-cases,
}
use llvm_tutor.Ir.{Instruction, BasicBlock}
use llvm_tutor.Ir.Query.{last_inst}
use llvm_tutor.Machine.Exec.{Machine, State, exec}
use llvm_tutor.Machine.Flow.{
  Terminators, Exit, take_phis, drop_phis, front, finish, run_code, run_block,
}
use llvm_tutor.Machine.Flow.Live.{
  AgreesOn, IsPlain, take_phis-drop_phis, front-last, exec-AgreesOn, SameExit, finish-SameExit,
  run_block-ending,
}
use llvm_tutor.DuplicateBb.Clone.Documented.{move, move_inst, move_block}
use llvm_tutor.DuplicateBb.Clone.Moved.{assign_phis-moved, drop_phis-moved, map-move_IsPlain}
use llvm_tutor.DuplicateBb.Clone.Formed.{
  IsFormed, Operands, All-LabelsBelow_mono, All-drop_phis, All-front, All-last,
}
use llvm_tutor.DuplicateBb.Clone.Halves.{after_phis}
use llvm_tutor.DuplicateBb.Clone.Head.{map-append}

some-inj : {A : Type 0} {x y : A} → some x ≡ some y → x ≡ y
some-inj h = ground (arith, h)

pub moved-split :
    (l tail : ℕ) (is : List Instruction)
    → IsPlain (drop_phis is)
    → map (move_inst l tail) is ≡ map (move_inst l tail) (take_phis is) ++ drop_phis is
moved-split l tail is p =
    ap (map (move_inst l tail)) (sym (take_phis-drop_phis is))
    ∙ map-append (move_inst l tail) (take_phis is) (drop_phis is)
    ∙ ap (λ xs. map (move_inst l tail) (take_phis is) ++ xs)
        (map-move_IsPlain l tail (drop_phis is) p)

module _ {W : Type 0} (m : Machine W) (leave : Terminators W) where
  -- A block that has a terminator runs to it, and no other block runs.
  pub run_block-cases :
      (from : ℕ) (b : BasicBlock) (s : State W) (e : Exit W)
      → run_block m leave from b s ≡ some e
      → (i : Instruction) × (last_inst (drop_phis b.instructions) ≡ some i)
  unfolding run_block run_code
  run_block-cases from b s e h = elim (Option-cases (last_inst (drop_phis b.instructions))) [
    | inl x ↦ absurd (ground (arith, h, x))
    | inr x ↦ x
  ]

  -- What a block with the terminator i does.
  pub run_block-last :
      (from : ℕ) (b : BasicBlock) (i : Instruction) (s : State W)
      → last_inst (drop_phis b.instructions) ≡ some i
      → run_block m leave from b s
        ≡ some
            (finish m leave i (exec m (front (drop_phis b.instructions)) (after_phis m from b s)))
  run_block-last from b i s h =
      run_block-ending m leave from b (front (drop_phis b.instructions)) i s
        (front-last (drop_phis b.instructions) i h)

module _ {W : Type 0} (m : Machine W) (leave : Terminators W) (P : ℕ → Type 0) where
  SameExit-of : {d e f : Exit W} → d ≡ e → SameExit m P leave d f → SameExit m P leave e f
  SameExit-of same h = rw (← same) h

  pub run_other :
      (l next from : ℕ) (b : BasicBlock) (s t : State W) (e : Exit W)
      → IsFormed P next b
      → from < next
      → AgreesOn P s t
      → run_block m leave from b s ≡ some e
      → (d : Exit W) × (run_block m leave (move l (next + 2) from) (move_block l (next + 2) b) t
          ≡ some d)
        × SameExit m P leave e d
  run_other l next from b s t e formed f a ran =
      let tail = next + 2 in
      let after = drop_phis b.instructions in
      let found = run_block-cases m leave from b s e ran in
      let i = found.0 in
      let last = front-last after i found.1 in
      let moved = move_block l tail b in
      let split = moved-split l tail b.instructions formed.phis_first in
      let t' = after_phis m (move l tail from) moved t in
      let phis : AgreesOn P (after_phis m from b s) t' = record {
        registers = λ j q. rw split (
            assign_phis-moved m P l tail from s t a (omega arith) b.instructions after
              formed.operands
              (All-LabelsBelow_mono next tail b.instructions (omega arith) formed.phi_labels)
              formed.phis_first s.regs t.regs a.registers j q);
        same_world = a.same_world;
      } in
      let operands = All-drop_phis (Operands P) b.instructions formed.operands in
      let ended : Operands P i = All-last (Operands P) (front after) i (rw (← last) operands) in
      let body = exec-AgreesOn m P (front after) _ _ phis (All-front (Operands P) after operands) in
      let same : some e ≡ some (finish m leave i (exec m (front after) (after_phis m from b s))) =
        sym ran ∙ run_block-last m leave from b i s found.1 in
      let first : drop_phis moved.instructions ≡ front after ++ i ∷ [] =
        ap drop_phis split ∙ drop_phis-moved l tail b.instructions after formed.phis_first ∙ last in
      let d = finish m leave i (exec m (front after) t') in
      let inj = some-inj same in
      let exits = finish-SameExit m P leave _ _ i body ended in
      (
        d,
        run_block-ending m leave (move l tail from) moved (front after) i t first,
        SameExit-of (sym inj) exits,
      )
