-- ===== src/DuplicateBb/Clone/Documented.antt =====
-- What LLVM documents about the functions that cloneBB calls (Transforms/Utils/BasicBlockUtils.h and
-- IR/IRBuilder.h): the blocks that SplitBlockAndInsertIfThenElse leaves, and that the code of
-- CreateIsNull reads and defines, but changes nothing that was there.
use llvm_tutor.Prelude.{
  ℕ, ◌+◌, ◌==◌, ◌≤◌, ◌<◌, ◌≡◌, if◌then◌else◌, false, List, [], ◌∷◌, ◌++◌, map, All,
}
use llvm_tutor.Ir.{Value, basic_block, Opcode, phi, br, void_ty, Instruction, BasicBlock}
use llvm_tutor.Ir.Query.{is_phi}
use llvm_tutor.Machine.Exec.{Machine, State, exec}
use llvm_tutor.Machine.Agreement.{Agrees}
use llvm_tutor.Machine.Flow.{labels_of}
use llvm_tutor.Machine.Flow.Live.{Named}
use llvm_tutor.DuplicateBb.Clone.{Split, Utils}

-- What ended in block l ends in the tail now.
abbrev pub move : ℕ → ℕ → ℕ → ℕ
move l tail x = if x == l then tail else x

abbrev pub move_opcode : ℕ → ℕ → Opcode → Opcode
move_opcode l tail (phi ls) = phi (map (move l tail) ls)
move_opcode l tail op = op

abbrev pub move_inst : ℕ → ℕ → Instruction → Instruction
move_inst l tail i = record {
  id = i.id;
  opcode = move_opcode l tail i.opcode;
  ty = i.ty;
  operands = i.operands;
}

abbrev pub move_block : ℕ → ℕ → BasicBlock → BasicBlock
move_block l tail b = record {
  label = b.label;
  instructions = map (move_inst l tail) b.instructions;
}

abbrev pub branch : ℕ → List Value → Instruction
branch k vs = record { id = k; opcode = br; ty = void_ty; operands = vs }

abbrev pub documented_split :
    Value → ℕ → List Instruction → List Instruction → List BasicBlock → ℕ → ℕ → Split
documented_split cond l before after others next n =
    let tail = next + 2 in
    record {
      head = record {
        label = l;
        instructions =
            map (move_inst l tail) before
            ++ branch n (cond ∷ basic_block (next + 1) ∷ basic_block next ∷ []) ∷ [];
      };
      then_block = record {
        label = next;
        instructions = branch (n + 1) (basic_block tail ∷ []) ∷ [];
      };
      else_block = record {
        label = next + 1;
        instructions = branch (n + 2) (basic_block tail ∷ []) ∷ [];
      };
      tail = record { label = tail; instructions = after };
      others = map (move_block l tail) others;
      next_label = next + 3;
      next_id = n + 3;
    }

pub record IsDocumented {W : Type 0} (m : Machine W) (u : Utils) : Type 1 where
  pub split_law :
      (cond : Value) (l : ℕ) (before after : List Instruction) (others : List BasicBlock)
      (next n : ℕ)
      → u.split cond l before after others next n
        ≡ documented_split cond l before after others next n
  pub is_null_next : (v : Value) (n : ℕ) → n ≤ (u.create_is_null v n).next
  pub is_null_value :
      (v : Value) (n : ℕ) (vs : List Value)
      → labels_of ((u.create_is_null v n).value ∷ vs) ≡ labels_of vs
  pub is_null_operands :
      (Q : ℕ → Type 0) (v : Value) (n : ℕ)
      → Named Q v
      → ((j : ℕ) → n ≤ j → j < (u.create_is_null v n).next → Q j)
      → Named Q (u.create_is_null v n).value
        × All (λ i. All (Named Q) i.operands) (u.create_is_null v n).code
  pub is_null_plain :
      (v : Value) (n : ℕ) → All (λ i. is_phi i.opcode ≡ false) (u.create_is_null v n).code
  pub is_null_keeps :
      (v : Value) (n : ℕ) (s : State W) → Agrees n s (exec m (u.create_is_null v n).code s)
