-- ===== src/DuplicateBb/Clone/Shape.antt =====
-- The blocks that cloneBB leaves, written out.
use llvm_tutor.Prelude.{ℕ, ◌+◌, ◌≡◌, refl, some, List, [], ◌∷◌, ◌++◌, map}
use llvm_tutor.Prelude.Containers.{lookup}
use llvm_tutor.Ir.{Value, value_eq, basic_block, Instruction, BasicBlock}
use llvm_tutor.Ir.Query.{last_inst}
use llvm_tutor.Builder.{Emit}
use llvm_tutor.Machine.Exec.{Machine}
use llvm_tutor.Machine.Flow.{take_phis, drop_phis, front}
use llvm_tutor.DuplicateBb.Clone.{Utils, DupState, splice, clone_found}
use llvm_tutor.DuplicateBb.Clone.Documented.{move_inst, move_block, branch, IsDocumented}
use llvm_tutor.DuplicateBb.Clone.Loop.{branch_code, tail_phis, clone_insts-then, clone_insts-else}
use llvm_tutor.DuplicateBb.Clone.Loop.Tail.{clone_insts-tail}

-- The code of the condition.
abbrev pub null_test : Utils → Value → DupState → Emit
null_test u context st = u.create_is_null (lookup context context st.re_mapper) st.next_id

-- `c` is the code of the condition, `n` the first fresh label, `i` the terminator of b.
module _ (b : BasicBlock) (c : Emit) (n : ℕ) where
  abbrev pub body : List Instruction
  body = front (drop_phis b.instructions)

  abbrev pub head_branch : Instruction
  head_branch = branch c.next (c.value ∷ basic_block (n + 1) ∷ basic_block n ∷ [])

  abbrev pub head_block : BasicBlock
  head_block = record {
    label = b.label;
    instructions =
        map (move_inst b.label (n + 2)) (take_phis b.instructions ++ c.code) ++ head_branch ∷ [];
  }

  -- The two clones, off = 0 and off = 1.
  abbrev pub clone_block : ℕ → ℕ → ℕ → BasicBlock
  clone_block off l id = record {
    label = l;
    instructions =
        branch_code off (c.next + 3) [] body ++ branch id (basic_block (n + 2) ∷ []) ∷ [];
  }

  abbrev pub tail_block : Instruction → BasicBlock
  tail_block i = record {
    label = n + 2;
    instructions = tail_phis n (n + 1) (c.next + 3) body ++ i ∷ [];
  }

  abbrev pub four_blocks : Instruction → List BasicBlock
  four_blocks i =
      head_block
      ∷ clone_block 0 n (c.next + 1)
      ∷ clone_block 1 (n + 1) (c.next + 2)
      ∷ tail_block i
      ∷ []

pub clone_found-blocks :
    {W : Type 0} (m : Machine W) (u : Utils) (b : BasicBlock) (context : Value) (st : DupState)
    (i : Instruction)
    → IsDocumented m u
    → last_inst (drop_phis b.instructions) ≡ some i
    → (clone_found u b context st).blocks
      ≡ splice b.label
          (four_blocks b (null_test u context st) st.next_label i)
          (map (move_block b.label (st.next_label + 2)) st.blocks)
unfolding clone_found lookup
clone_found-blocks m u b context st i doc h =
    let n = st.next_label in
    let c = null_test u context st in
    let after = drop_phis b.instructions in
    let law =
      doc.split_law c.value b.label (take_phis b.instructions ++ c.code) after st.blocks n c.next in
    let t = clone_insts-then n (n + 1) (c.next + 3) [] [] [] st.re_mapper after in
    let e = clone_insts-else n (n + 1) (c.next + 3) [] [] [] st.re_mapper after in
    let l = clone_insts-tail n (n + 1) (c.next + 3) [] [] [] st.re_mapper after i (λ j. refl) h in
    rw (law, t, e, l) refl
