-- ===== src/DuplicateBb/Clone/Head.antt =====
-- The first of the four blocks: the PHI nodes, the test of the context value, and the branch.
use llvm_tutor.Prelude.{
  ℕ, ◌+◌, ◌≤◌, ◌<◌, ◌≡◌, ◌⊎◌, refl, sym, ap, ◌∙◌, false, inl, inr, some, List, [], ◌∷◌, ◌++◌, map,
  All-append, arith,
}
use llvm_tutor.Ir.{Value, basic_block, Instruction, BasicBlock}
use llvm_tutor.Ir.Query.{is_phi}
use llvm_tutor.Builder.{Emit}
use llvm_tutor.Machine.Exec.{Machine, State, exec}
use llvm_tutor.Machine.Agreement.{Agrees}
use llvm_tutor.Machine.Flow.{
  Terminators, labels_of, IsBranching, take_phis, drop_phis, finish, run_block,
}
use llvm_tutor.Machine.Flow.Live.{AgreesOn, IsPlain, run_block-ending}
use llvm_tutor.DuplicateBb.Clone.Documented.{move, move_inst, branch}
use llvm_tutor.DuplicateBb.Clone.Moved.{assign_phis-moved, drop_phis-moved, map-move_IsPlain}
use llvm_tutor.DuplicateBb.Clone.Shape.{head_branch, head_block}
use llvm_tutor.DuplicateBb.Clone.Formed.{IsFormed, All-LabelsBelow_mono}
use llvm_tutor.DuplicateBb.Clone.Halves.{after_phis}

pub map-append :
    (f : Instruction → Instruction) (xs ys : List Instruction)
    → map f (xs ++ ys) ≡ map f xs ++ map f ys
map-append f [] ys = refl
map-append f (x ∷ xs) ys = ap (λ zs. f x ∷ zs) (map-append f xs ys)

append_assoc : (xs ys zs : List Instruction) → (xs ++ ys) ++ zs ≡ xs ++ (ys ++ zs)
append_assoc [] ys zs = refl
append_assoc (x ∷ xs) ys zs = ap (λ ws. x ∷ ws) (append_assoc xs ys zs)

-- The head's instructions: its PHI nodes, then code without any.
pub head-split :
    (l tail : ℕ) (is code : List Instruction) (i : Instruction)
    → IsPlain code
    → map (move_inst l tail) (take_phis is ++ code) ++ i ∷ []
      ≡ map (move_inst l tail) (take_phis is) ++ (code ++ i ∷ [])
head-split l tail is code i p =
    ap (λ xs. xs ++ i ∷ [])
      (map-append (move_inst l tail) (take_phis is) code
        ∙ ap (λ xs. map (move_inst l tail) (take_phis is) ++ xs) (map-move_IsPlain l tail code p))
    ∙ append_assoc (map (move_inst l tail) (take_phis is)) code (i ∷ [])

module _ {W : Type 0} (m : Machine W) (leave : Terminators W) (branching : IsBranching leave)
    (P : ℕ → Type 0) (n : ℕ) (bound : (j : ℕ) → P j → j < n) where
  -- A branch with a fresh number changes nothing that P names.
  finish-branch :
      (id : ℕ) (vs : List Value) (s t : State W)
      → n ≤ id
      → AgreesOn P s t
      → AgreesOn P s (finish m leave (branch id vs) t).state
  finish-branch id vs s t f a = record {
    registers = λ j p. ground (arith, a.registers j p, bound j p);
    same_world = a.same_world ∙ sym (branching.br_world _ _ _ _);
  }

  -- The head goes to one of the clones, in a state that agrees with the block's after its PHI nodes.
  pub run_head :
      (b : BasicBlock) (c : Emit) (next from : ℕ) (s t : State W)
      → IsFormed P next b
      → from < next
      → n ≤ c.next
      → IsPlain c.code
      → ((vs : List Value) → labels_of (c.value ∷ vs) ≡ labels_of vs)
      → ((s : State W) → Agrees n s (exec m c.code s))
      → AgreesOn P s t
      → (u : State W) × (k : ℕ) × ((k ≡ next + 1) ⊎ (k ≡ next))
        × (run_block m leave (move b.label (next + 2) from) (head_block b c next) t
            ≡ some (record { state = u; target = some k }))
        × AgreesOn P (after_phis m from b s) u
  run_head b c next from s t formed f below plain no_label keeps a =
      let tail = next + 2 in
      let br = head_branch b c next in
      let block = head_block b c next in
      let rest : IsPlain (c.code ++ br ∷ []) =
        All-append (λ i. is_phi i.opcode ≡ false) c.code (br ∷ []) plain (refl, tt) in
      let split = head-split b.label tail b.instructions c.code br plain in
      let t' = after_phis m (move b.label tail from) block t in
      let phis : AgreesOn P (after_phis m from b s) t' = record {
        registers = λ j q. rw split (
            assign_phis-moved m P b.label tail from s t a (omega arith) b.instructions
              (c.code ++ br ∷ []) formed.operands
              (All-LabelsBelow_mono next tail b.instructions (omega arith) formed.phi_labels) rest
              s.regs t.regs a.registers j q);
        same_world = a.same_world;
      } in
      let kept = keeps t' in
      let tested : AgreesOn P (after_phis m from b s) (exec m c.code t') = record {
        registers = λ j q. phis.registers j q ∙ kept.registers j (bound j q);
        same_world = phis.same_world ∙ kept.same_world;
      } in
      let e = finish m leave br (exec m c.code t') in
      let ran : run_block m leave (move b.label tail from) block t ≡ some e =
        run_block-ending m leave (move b.label tail from) block c.code br t (
          ap drop_phis split
          ∙ drop_phis-moved b.label tail b.instructions (c.code ++ br ∷ []) rest) in
      let agrees = finish-branch c.next br.operands _ _ below tested in
      let no = no_label (basic_block (next + 1) ∷ basic_block next ∷ []) in
      let target : (e.target ≡ some (next + 1)) ⊎ (e.target ≡ some next) =
        rw no (branching.br_two _ _ (next + 1) next _) in
      elim target [
        | inl x ↦ (
          e.state,
          next + 1,
          inl refl,
          ran ∙ ap (λ o. some (record { state = e.state; target = o })) x,
          agrees,
        )
        | inr x ↦ (
          e.state,
          next,
          inr refl,
          ran ∙ ap (λ o. some (record { state = e.state; target = o })) x,
          agrees,
        )
      ]
