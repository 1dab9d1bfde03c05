-- ===== src/Merge/Lockstep.antt =====
-- LockstepReverseIterator, and the loop of mergeDuplicatedBlock that drives it. A pointer to an
-- instruction is the list of the instructions from it back to the start of its block; a null
-- pointer is the empty list.
pub mod Pairs
use llvm_tutor.Prelude.{
  ℕ, zero, suc, ◌+◌, ◌≡◌, refl, Bool, true, false, ◌&&◌, not, Option, none, some, List, [], ◌∷◌,
  if◌then◌else◌, length,
}
use mathlib.Core.List.{reverse, tail}
use llvm_tutor.Ir.{Instruction, BasicBlock}
use llvm_tutor.Ir.Query.{is_dbg}

pub record LockstepReverseIterator : Type 0 where
  pub insts1 : List Instruction
  pub insts2 : List Instruction
  pub fail : Bool

-- while (Inst && isa<DbgInfoIntrinsic>(Inst)) Inst = Inst->getPrevNode();
unfoldable pub skip_dbg : List Instruction → List Instruction
skip_dbg [] = []
skip_dbg (i ∷ is) = if is_dbg i.opcode then skip_dbg is else i ∷ is

-- do { Inst = Inst->getPrevNode(); } while (Inst && isa<DbgInfoIntrinsic>(Inst));
unfoldable pub prev_non_dbg : List Instruction → List Instruction
unfolding skip_dbg
prev_non_dbg [] = []
prev_non_dbg (i ∷ is) = skip_dbg is

-- getLastNonDbgInst(BB): the walk starts at the terminator.
unfoldable pub get_last_non_dbg_inst : List Instruction → List Instruction
unfolding prev_non_dbg
get_last_non_dbg_inst instrs = prev_non_dbg (reverse instrs)

abbrev pub is_null : List Instruction → Bool
is_null [] = true
is_null (i ∷ is) = false

-- The constructor.
unfoldable pub lockstep_start : List Instruction → List Instruction → LockstepReverseIterator
unfolding get_last_non_dbg_inst
lockstep_start b1 b2 =
    let i1 = get_last_non_dbg_inst b1 in
    let i2 = get_last_non_dbg_inst b2 in
    record { insts1 = i1; insts2 = i2; fail = if is_null i1 then true else is_null i2 }

-- operator--: it stops at the first pointer that becomes null.
unfoldable pub lockstep_prev : LockstepReverseIterator → LockstepReverseIterator
unfolding prev_non_dbg
lockstep_prev it =
    let p1 = prev_non_dbg it.insts1 in
    let p2 = prev_non_dbg it.insts2 in
    if it.fail
    then it
    else if is_null p1
    then record it { insts1 = p1; fail = true }
    else record { insts1 = p1; insts2 = p2; fail = is_null p2 }

module _ (can_merge : Instruction → Instruction → Bool) where
  -- canMergeInstructions(*LRI).
  abbrev pub can_merge_at : List Instruction → List Instruction → Bool
  can_merge_at (i ∷ is) (j ∷ js) = can_merge i j
  can_merge_at _ _ = false

  -- while (LRI.isValid() && canMergeInstructions(*LRI)) --LRI;  with fuel.
  unfoldable pub lockstep_loop : ℕ → LockstepReverseIterator → LockstepReverseIterator
  lockstep_loop zero it = it
  lockstep_loop (suc fuel) it =
      let rest = lockstep_loop fuel (lockstep_prev it) in
      if not it.fail && can_merge_at it.insts1 it.insts2 then rest else it

  -- The walk ends with an invalid iterator: no mismatch was found.
  unfoldable pub no_mismatch : List Instruction → List Instruction → Bool
  unfolding lockstep_loop
  no_mismatch b1 b2 = (lockstep_loop (length b1) (lockstep_start b1 b2)).fail
