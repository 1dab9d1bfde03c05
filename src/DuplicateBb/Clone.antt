-- ===== src/DuplicateBb/Clone.antt =====
-- lib/DuplicateBB.cpp, cloneBB and run. LLVM's IRBuilder::CreateIsNull and
-- SplitBlockAndInsertIfThenElse come in as a record; fresh blocks and instructions take the next
-- unused numbers. The PHI node that ReplaceInstWithInst puts in the place of an instruction takes
-- over its uses, and with them its number; an instruction that is erased has no uses.
pub mod Documented
pub mod Moved
pub mod Blocks
pub mod Loop
pub mod Shape
pub mod Formed
pub mod Halves
pub mod Head
pub mod Other
pub mod Steps
pub mod Correct
pub mod Again
pub mod Kept
pub mod Sane
pub mod All
pub mod Targets
pub mod Remapped
pub mod Run
pub mod WithRiv
mod Sample
mod Tests
use llvm_tutor.Prelude.{
  ℕ, ◌+◌, ◌==◌, if◌then◌else◌, wrap_unsigned, Bool, true, false, Option, none, some, List, [], ◌∷◌,
  ◌++◌,
}
use llvm_tutor.Prelude.Containers.{nat_eq, find, modify, lookup}
use llvm_tutor.Ir.{
  Value, value_eq, instruction, Opcode, phi, Ty, void_ty, Instruction, BasicBlock,
  PreservedAnalyses, all_preserved, none_preserved,
}
use llvm_tutor.Ir.Query.{find_block}
use llvm_tutor.Builder.{Build}
use llvm_tutor.Machine.Flow.{take_phis, drop_phis}
use llvm_tutor.Riv.{RivResult}
use llvm_tutor.DuplicateBb.{find_bbs_to_duplicate}

-- What SplitBlockAndInsertIfThenElse leaves: the four blocks, the other blocks with their PHI nodes
-- updated, and the next unused numbers.
pub record Split : Type 0 where
  pub head : BasicBlock
  pub then_block : BasicBlock
  pub else_block : BasicBlock
  pub tail : BasicBlock
  pub others : List BasicBlock
  pub next_label : ℕ
  pub next_id : ℕ

-- `split cond l before after others next_label next_id` splits the block l between `before` and
-- `after`.
pub record Utils : Type 0 where
  pub create_is_null : Value → Build
  pub split : Value → ℕ → List Instruction → List Instruction → List BasicBlock → ℕ → ℕ → Split

abbrev pub is_void_ty : Ty → Bool
is_void_ty void_ty = true
is_void_ty _ = false

-- ValueToValueMapTy, from the numbers of instructions to those of their clones.
abbrev pub VMap : Type 0
VMap = List (ℕ × ℕ)

unfoldable pub set_vmap : ℕ → ℕ → VMap → VMap
set_vmap k c m = modify k c (λ old. c) m

-- RemapInstruction with RF_IgnoreMissingLocals: what the map does not name stays.
abbrev pub remap_value : VMap → Value → Value
remap_value m (instruction i) = instruction (lookup i i m)
remap_value m v = v

unfoldable pub remap_values : VMap → List Value → List Value
remap_values m [] = []
remap_values m (v ∷ vs) = remap_value m v ∷ remap_values m vs

unfoldable pub remap_as : ℕ → VMap → Instruction → Instruction
remap_as k m i = record {
  id = k;
  opcode = i.opcode;
  ty = i.ty;
  operands = remap_values m i.operands;
}

abbrev pub ValueToPhiMap : Type 0
ValueToPhiMap = List (Value × Value)

-- What the loop of cloneBB has inserted before ThenTerm and ElseTerm, what it left of Tail, its
-- maps, and the next unused number.
pub record Clones : Type 0 where
  pub then_code : List Instruction
  pub else_code : List Instruction
  pub tail_code : List Instruction
  pub then_vmap : VMap
  pub else_vmap : VMap
  pub tail_vmap : VMap
  pub re_mapper : ValueToPhiMap
  pub next : ℕ

abbrev pub tail_phi : ℕ → ℕ → ℕ → Instruction → Instruction
tail_phi then_label else_label k i = record {
  id = i.id;
  opcode = phi (then_label ∷ else_label ∷ []);
  ty = i.ty;
  operands = instruction k ∷ instruction (k + 1) ∷ [];
}

module _ (then_label else_label : ℕ) where
  -- The loop over Tail. The last instruction is the terminator.
  unfoldable pub clone_insts : ℕ → VMap → VMap → VMap → ValueToPhiMap → List Instruction → Clones
  clone_insts k tm em lm rm [] = record {
    then_code = [];
    else_code = [];
    tail_code = [];
    then_vmap = tm;
    else_vmap = em;
    tail_vmap = lm;
    re_mapper = rm;
    next = k;
  }
  clone_insts k tm em lm rm (i ∷ []) = record {
    then_code = [];
    else_code = [];
    tail_code = remap_as i.id lm i ∷ [];
    then_vmap = tm;
    else_vmap = em;
    tail_vmap = lm;
    re_mapper = rm;
    next = k;
  }
  clone_insts k tm em lm rm (i ∷ j ∷ is) =
      let void = is_void_ty i.ty in
      let lm' = if void then lm else set_vmap i.id i.id lm in
      let rm' =
        if void
        then rm
        else modify (instruction i.id) (instruction i.id) (λ old. instruction i.id) rm in
      let rest : Clones =
        clone_insts (k + 2) (set_vmap i.id k tm) (set_vmap i.id (k + 1) em) lm' rm' (j ∷ is) in
      record {
        then_code = remap_as k tm i ∷ rest.then_code;
        else_code = remap_as (k + 1) em i ∷ rest.else_code;
        tail_code =
            if void then rest.tail_code else tail_phi then_label else_label k i ∷ rest.tail_code;
        then_vmap = rest.then_vmap;
        else_vmap = rest.else_vmap;
        tail_vmap = rest.tail_vmap;
        re_mapper = rest.re_mapper;
        next = rest.next;
      }

-- The list with the block l replaced.
unfoldable pub splice : ℕ → List BasicBlock → List BasicBlock → List BasicBlock
splice l new [] = []
splice l new (b ∷ bs) = if b.label == l then new ++ bs else b ∷ splice l new bs

-- Instructions put before ThenTerm or ElseTerm, the first and only one of its block.
abbrev pub put_before : List Instruction → BasicBlock → BasicBlock
put_before code b = record { label = b.label; instructions = code ++ b.instructions }

abbrev pub with_code : List Instruction → BasicBlock → BasicBlock
with_code code b = record { label = b.label; instructions = code }

-- The function and what the pass keeps: unused numbers, ReMapper and DuplicateBBCount.
pub record DupState : Type 0 where
  pub blocks : List BasicBlock
  pub next_label : ℕ
  pub next_id : ℕ
  pub re_mapper : ValueToPhiMap
  pub duplicate_bb_count : ℕ

module _ (u : Utils) where
  unfoldable pub clone_found : BasicBlock → Value → DupState → DupState
  clone_found b context st =
      let after = drop_phis b.instructions in
      let cond = u.create_is_null (lookup context context st.re_mapper) st.next_id in
      let sp =
        u.split cond.value b.label (take_phis b.instructions ++ cond.code) after st.blocks
          st.next_label cond.next in
      let loop =
        clone_insts sp.then_block.label sp.else_block.label sp.next_id [] [] [] st.re_mapper
          sp.tail.instructions in
      let new =
        sp.head
        ∷ put_before loop.then_code sp.then_block
        ∷ put_before loop.else_code sp.else_block
        ∷ with_code loop.tail_code sp.tail
        ∷ [] in
      record {
        blocks = splice b.label new sp.others;
        next_label = sp.next_label;
        next_id = loop.next;
        re_mapper = loop.re_mapper;
        duplicate_bb_count = wrap_unsigned (st.duplicate_bb_count + 1);
      }

  unfoldable pub clone_bb : ℕ → Value → DupState → DupState
  clone_bb l context st = elim (find_block l st.blocks) [
    | none ↦ st
    | some b ↦ clone_found b context st
  ]

  unfoldable pub clone_all : List (ℕ × Value) → DupState → DupState
  clone_all [] st = st
  clone_all ((l, v) ∷ targets) st = clone_all targets (clone_bb l v st)

  abbrev pub preserved_unless : List (ℕ × Value) → PreservedAnalyses
  preserved_unless [] = all_preserved
  preserved_unless (t ∷ ts) = none_preserved

  -- DuplicateBB::run. The statistic takes the final DuplicateBBCount.
  unfoldable pub run :
      (ℕ → ℕ → ℕ) → RivResult → ℕ → ℕ → ℕ → List BasicBlock → DupState × PreservedAnalyses
  run draw riv next_label next_id count bs =
      let targets = find_bbs_to_duplicate draw riv 0 bs in
      let start : DupState = record {
        blocks = bs;
        next_label = next_label;
        next_id = next_id;
        re_mapper = [];
        duplicate_bb_count = count;
      } in
      (clone_all targets start, preserved_unless targets)
