-- ===== src/Ir/Query.antt =====
-- What LLVM's IR classes answer about a function: blocks by label, terminators, successors, uses and
-- PHI nodes. Use lists are not stored: the uses of a value are found among the operands of all
-- instructions, one for each operand.
use llvm_tutor.Prelude.{
  ℕ, ◌==◌, Bool, true, false, ◌||◌, ◌&&◌, Option, none, some, List, [], ◌∷◌, ◌++◌, if◌then◌else◌,
}
use llvm_tutor.Ir.{
  Value, instruction, basic_block, same_value, Opcode, call_base, phi, br, switch, Instruction,
  BasicBlock,
}

unfoldable pub find_block : ℕ → List BasicBlock → Option BasicBlock
find_block l [] = none
find_block l (b ∷ bs) = if b.label == l then some b else find_block l bs

-- F.getEntryBlock(), the first block.
unfoldable pub is_entry : List BasicBlock → ℕ → Bool
is_entry [] l = false
is_entry (b ∷ bs) l = b.label == l

unfoldable pub last_inst : List Instruction → Option Instruction
last_inst [] = none
last_inst (i ∷ []) = some i
last_inst (i ∷ j ∷ is) = last_inst (j ∷ is)

abbrev pub get_terminator : BasicBlock → Option Instruction
get_terminator b = last_inst b.instructions

-- isa<DbgInfoIntrinsic>, isa<PHINode>, isa<BranchInst>, isa<SwitchInst>.
abbrev pub is_dbg : Opcode → Bool
is_dbg (call_base f d) = d
is_dbg _ = false

abbrev pub is_phi : Opcode → Bool
is_phi (phi ls) = true
is_phi _ = false

abbrev pub is_branch : Opcode → Bool
is_branch br = true
is_branch _ = false

abbrev pub is_branch_or_switch : Opcode → Bool
is_branch_or_switch br = true
is_branch_or_switch switch = true
is_branch_or_switch _ = false

-- The target of an unconditional branch, whose only operand it is; none for any other instruction.
abbrev pub branch_target : List Value → Option ℕ
branch_target (basic_block l ∷ []) = some l
branch_target _ = none

abbrev pub unconditional_target : Instruction → Option ℕ
unconditional_target i = if is_branch i.opcode then branch_target i.operands else none

-- PHINode::getIncomingValueForBlock.
unfoldable pub incoming_value : List ℕ → List Value → ℕ → Option Value
incoming_value [] vs l = none
incoming_value (k ∷ ks) [] l = none
incoming_value (k ∷ ks) (v ∷ vs) l = if k == l then some v else incoming_value ks vs l

abbrev pub phi_incoming : Instruction → ℕ → Option Value
phi_incoming i l = elim i.opcode [ phi ls ↦ incoming_value ls i.operands l | _ ↦ none ]

-- The uses of an instruction, as pairs of the user's block and the user.
unfoldable pub uses_in_operands : ℕ → ℕ → Instruction → List Value → List (ℕ × Instruction)
uses_in_operands x l i [] = []
uses_in_operands x l i (v ∷ vs) =
    let rest = uses_in_operands x l i vs in
    if same_value (instruction x) v then (l, i) ∷ rest else rest

unfoldable pub uses_in_block : ℕ → ℕ → List Instruction → List (ℕ × Instruction)
unfolding uses_in_operands
uses_in_block x l [] = []
uses_in_block x l (i ∷ is) = uses_in_operands x l i i.operands ++ uses_in_block x l is

unfoldable pub uses : List BasicBlock → ℕ → List (ℕ × Instruction)
unfolding uses_in_block
uses [] x = []
uses (b ∷ bs) x = uses_in_block x b.label b.instructions ++ uses bs x

-- The block that an instruction stands in.
unfoldable pub has_inst : List Instruction → ℕ → Bool
has_inst [] x = false
has_inst (i ∷ is) x = i.id == x || has_inst is x

unfoldable pub in_block : List BasicBlock → ℕ → ℕ → Bool
unfolding has_inst
in_block [] x l = false
in_block (b ∷ bs) x l = (b.label == l && has_inst b.instructions x) || in_block bs x l

-- An operand of the terminator is the block l.
unfoldable pub mentions : List Value → ℕ → Bool
mentions [] l = false
mentions (v ∷ vs) l = same_value v (basic_block l) || mentions vs l

unfoldable pub targets : BasicBlock → ℕ → Bool
unfolding mentions last_inst
targets b l = elim (get_terminator b) [ none ↦ false | some t ↦ mentions t.operands l ]
