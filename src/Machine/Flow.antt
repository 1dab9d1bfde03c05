-- ===== src/Machine/Flow.antt =====
-- Execution of a function with its branches and PHI nodes: the PHI nodes at the top of a block are
-- read at once, for the block that control comes from, then the instructions run in order, and the
-- last one says where control goes. Fuel bounds the number of blocks.
pub mod Live
use llvm_tutor.Prelude.{
  ℕ, zero, suc, ◌≡◌, ◌⊎◌, refl, Bool, true, false, Option, none, some, List, [], ◌∷◌, ◌++◌,
}
use llvm_tutor.Ir.{Value, basic_block, Opcode, phi, br, Ty, Instruction, BasicBlock}
use llvm_tutor.Ir.Query.{is_phi, phi_incoming, last_inst, find_block}
use llvm_tutor.Machine.Exec.{Machine, State, update, value_of, operand_values, exec}

-- What a terminator does: the value it defines, the world after it, and the block control goes to.
pub record Jump (W : Type 0) : Type 0 where
  pub value : ℕ
  pub world : W
  pub target : Option ℕ

-- How terminators run: opcode, type, the values of the operands and the blocks among them.
abbrev pub Terminators : Type 0 → Type 0
Terminators W = Opcode → Ty → List ℕ → List ℕ → W → Jump W

pub record Exit (W : Type 0) : Type 0 where
  pub state : State W
  pub target : Option ℕ

abbrev pub labels_of : List Value → List ℕ
labels_of [] = []
labels_of (basic_block l ∷ vs) = l ∷ labels_of vs
labels_of (_ ∷ vs) = labels_of vs

-- The PHI nodes at the top of a block, and what follows them.
unfoldable pub take_phis : List Instruction → List Instruction
take_phis [] = []
take_phis (i ∷ is) =
    let rest = take_phis is in elim (is_phi i.opcode) [ true ↦ i ∷ rest | false ↦ [] ]

unfoldable pub drop_phis : List Instruction → List Instruction
drop_phis [] = []
drop_phis (i ∷ is) =
    let rest = drop_phis is in elim (is_phi i.opcode) [ true ↦ rest | false ↦ i ∷ is ]

-- All but the last.
unfoldable pub front : List Instruction → List Instruction
front [] = []
front (i ∷ []) = []
front (i ∷ j ∷ is) = i ∷ front (j ∷ is)

module _ {W : Type 0} (m : Machine W) where
  abbrev pub read : (ℕ → ℕ) → Option Value → ℕ
  read regs none = 0
  read regs (some v) = value_of m regs v

  -- `r` with the PHI nodes at the top of the list set from `old`.
  unfoldable pub assign_phis : (ℕ → ℕ) → ℕ → List Instruction → (ℕ → ℕ) → ℕ → ℕ
  assign_phis old from [] r = r
  assign_phis old from (i ∷ is) r =
      let rest = assign_phis old from is (update r i.id (read old (phi_incoming i from))) in
      elim (is_phi i.opcode) [ true ↦ rest | false ↦ r ]

module _ {W : Type 0} (m : Machine W) (leave : Terminators W) where
  abbrev pub finish : Instruction → State W → Exit W
  finish i s =
      let j =
        leave i.opcode i.ty (operand_values m s.regs i.operands) (labels_of i.operands) s.world in
      record {
        state = record { regs = update s.regs i.id j.value; world = j.world };
        target = j.target;
      }

  abbrev pub end_by : Option Instruction → List Instruction → State W → Option (Exit W)
  end_by none is s = none
  end_by (some i) is s = some (finish i (exec m is s))

  unfoldable pub run_code : List Instruction → State W → Option (Exit W)
  run_code is s = end_by (last_inst is) (front is) s

  unfoldable pub run_block : ℕ → BasicBlock → State W → Option (Exit W)
  run_block from b s =
      run_code (drop_phis b.instructions)
        (record { regs = assign_phis m s.regs from b.instructions s.regs; world = s.world })

  abbrev pub go_on : (ℕ → State W → Option (State W)) → Option (Exit W) → Option (State W)
  go_on go none = none
  go_on go (some e) = elim e.target [ none ↦ some e.state | some l ↦ go l e.state ]

  abbrev pub run_found :
      (ℕ → State W → Option (State W)) → ℕ → Option BasicBlock → State W → Option (State W)
  run_found go from none s = none
  run_found go from (some b) s = go_on go (run_block from b s)

  -- From block `from` into block l, until the function is left. none: out of fuel, no such block,
  -- or a block with nothing but PHI nodes.
  unfoldable pub exec_flow : ℕ → List BasicBlock → ℕ → ℕ → State W → Option (State W)
  exec_flow zero bs from l s = none
  exec_flow (suc fuel) bs from l s = run_found (exec_flow fuel bs l) from (find_block l bs) s

-- A branch goes to one of its blocks and changes nothing else.
pub record IsBranching {W : Type 0} (leave : Terminators W) : Type 0 where
  pub br_world : (ty : Ty) (vals ls : List ℕ) (w : W) → (leave br ty vals ls w).world ≡ w
  pub br_one :
      (ty : Ty) (vals : List ℕ) (l : ℕ) (w : W) → (leave br ty vals (l ∷ []) w).target ≡ some l
  pub br_two :
      (ty : Ty) (vals : List ℕ) (k l : ℕ) (w : W)
      → ((leave br ty vals (k ∷ l ∷ []) w).target ≡ some k)
        ⊎ ((leave br ty vals (k ∷ l ∷ []) w).target ≡ some l)
