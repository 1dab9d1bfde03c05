-- ===== src/DuplicateBb/Clone/Steps.antt =====
-- The three steps that take the place of the one step of the block that was split.
use llvm_tutor.Prelude.{
  ℕ, suc, ◌+◌, ◌≤◌, ◌<◌, ◌≡◌, ◌∙◌, false, inl, inr, some, List, [], ◌∷◌, arith,
}
use llvm_tutor.Ir.{Value, instruction, Instruction, BasicBlock}
use llvm_tutor.Ir.Query.{is_phi, find_block, incoming_value}
use llvm_tutor.Builder.{Emit}
use llvm_tutor.Machine.Exec.{Machine, State, exec}
use llvm_tutor.Machine.Agreement.{Agrees}
use llvm_tutor.Machine.Flow.{
  Terminators, Exit, labels_of, IsBranching, drop_phis, front, finish, go_on, exec_flow,
}
use llvm_tutor.Machine.Flow.Live.{AgreesOn, IsPlain, front-last, SameExit, exec_flow-next}
use llvm_tutor.DuplicateBb.Clone.Documented.{move}
use llvm_tutor.DuplicateBb.Clone.Shape.{body, head_block, clone_block, tail_block}
use llvm_tutor.DuplicateBb.Clone.Formed.{
  IsFormed, IsReady, Operands, HasNoUse, All-drop_phis, All-front, All-last,
}
use llvm_tutor.DuplicateBb.Clone.Halves.{after_phis, run_clone, run_tail}
use llvm_tutor.DuplicateBb.Clone.Head.{run_head}

module _ {W : Type 0} (m : Machine W) (leave : Terminators W) (branching : IsBranching leave)
    (P : ℕ → Type 0) (n : ℕ) (bound : (j : ℕ) → P j → j < n) (b : BasicBlock) (c : Emit) (next : ℕ)
    (i : Instruction) (new : List BasicBlock) (formed : IsFormed P next b) (below : n ≤ c.next)
    (ready : IsReady P n b i)
    (tail_found : find_block (next + 2) new ≡ some (tail_block b c next i)) where
  -- In this state the block has done its PHI nodes, and exits as said.
  abbrev exit : State W → Exit W
  exit s = finish m leave i (exec m (body b c next) s)

  through :
      (off k id : ℕ) (s u : State W)
      → off < 2
      → n ≤ id
      → id < c.next + 3
      → find_block k new ≡ some (clone_block b c next off k id)
      → ((x : ℕ)
          → incoming_value (next ∷ (next + 1) ∷ []) (instruction x ∷ instruction (x + 1) ∷ []) k
            ≡ some (instruction (x + off)))
      → AgreesOn P s u
      → (d : Exit W) × ((fuel : ℕ)
          → exec_flow m leave (suc (suc fuel)) new b.label k u
            ≡ go_on m leave (exec_flow m leave fuel new (next + 2)) (some d))
        × SameExit m P leave (exit s) d
  through off k id s u o f g found chooses a =
      let after = drop_phis b.instructions in
      let operands = All-drop_phis (Operands P) b.instructions formed.operands in
      let voids = All-drop_phis (HasNoUse P) b.instructions ready.void_unused in
      let split = front-last after i ready.terminated in
      let ran =
        run_clone m leave branching P n bound off (c.next + 3) id k b.label (next + 2)
          (body b c next) s u o f g
          (All-front (λ i. is_phi i.opcode ≡ false) after formed.phis_first)
          (All-front (Operands P) after operands) a in
      let plain : is_phi i.opcode ≡ false =
        All-last (λ i. is_phi i.opcode ≡ false) (front after) i (rw (← split) formed.phis_first) in
      let ended : Operands P i = All-last (Operands P) (front after) i (rw (← split) operands) in
      let exits =
        run_tail m leave branching P n bound next (next + 1) off (c.next + 3) (next + 2) k
          (body b c next) i (exec m (body b c next) s) ran.0 chooses plain ended
          (All-front (HasNoUse P) after voids) ran.2 in
      (
        exits.0,
        λ fuel.
            exec_flow-next m leave (suc fuel) b.label k new _ u _ found ran.1
            ∙ exec_flow-next m leave fuel k (next + 2) new _ ran.0 _ tail_found exits.1,
        exits.2,
      )

  pub run_split :
      (from : ℕ) (s t : State W)
      → from < next
      → IsPlain c.code
      → ((vs : List Value) → labels_of (c.value ∷ vs) ≡ labels_of vs)
      → ((s : State W) → Agrees n s (exec m c.code s))
      → find_block b.label new ≡ some (head_block b c next)
      → find_block next new ≡ some (clone_block b c next 0 next (c.next + 1))
      → find_block (next + 1) new ≡ some (clone_block b c next 1 (next + 1) (c.next + 2))
      → AgreesOn P s t
      → (d : Exit W) × ((fuel : ℕ)
          → exec_flow m leave (suc (suc (suc fuel))) new (move b.label (next + 2) from) b.label t
            ≡ go_on m leave (exec_flow m leave fuel new (next + 2)) (some d))
        × SameExit m P leave (exit (after_phis m from b s)) d
  unfolding incoming_value
  run_split from s t f plain no_label keeps head_found then_found else_found a =
      let start =
        run_head m leave branching P n bound b c next from s t formed f below plain no_label keeps
          a in
      let u = start.0 in
      let s1 = after_phis m from b s in
      let found : (d : Exit W) × ((fuel : ℕ)
            → exec_flow m leave (suc (suc fuel)) new b.label start.1 u
              ≡ go_on m leave (exec_flow m leave fuel new (next + 2)) (some d))
          × SameExit m P leave (exit s1) d =
        elim start.2 [
          | inl e ↦
              through 1 start.1 (c.next + 2) s1 u (omega arith) (omega arith) (omega arith)
                (rw e else_found) (rw e (λ x. ground arith)) start.4
          | inr e ↦
              through 0 start.1 (c.next + 1) s1 u (omega arith) (omega arith) (omega arith)
                (rw e then_found) (rw e (λ x. ground arith)) start.4
        ] in
      (
        found.0,
        λ fuel.
            exec_flow-next m leave (suc (suc fuel)) (move b.label (next + 2) from) b.label new _ t _
              head_found start.3
            ∙ found.1 fuel,
        found.2,
      )
