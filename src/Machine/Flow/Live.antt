-- ===== src/Machine/Flow/Live.antt =====
-- States that agree on the registers that operands may name, and code that keeps them so.
use llvm_tutor.Prelude.{
  ℕ, suc, ◌≡◌, refl, ap, ap₂, false, Option, none, some, List, [], ◌∷◌, ◌++◌, All, arith,
}
use llvm_tutor.Ir.{Value, instruction, Instruction, BasicBlock}
use llvm_tutor.Ir.Query.{find_block, is_phi, last_inst}
use llvm_tutor.Machine.Exec.{Machine, State, value_of, result, operand_values, step, exec}
use llvm_tutor.Machine.Flow.{
  Terminators, Exit, take_phis, drop_phis, front, assign_phis, finish, end_by, run_code, run_block,
  go_on, exec_flow,
}

-- The value is no register, or one of P.
abbrev pub Named : (ℕ → Type 0) → Value → Type 0
Named P (instruction i) = P i
Named P v = Unit

abbrev pub NamedOption : (ℕ → Type 0) → Option Value → Type 0
NamedOption P none = Unit
NamedOption P (some v) = Named P v

pub record AgreesOn {W : Type 0} (P : ℕ → Type 0) (s t : State W) : Type 0 where
  pub registers : (j : ℕ) → P j → s.regs j ≡ t.regs j
  pub same_world : s.world ≡ t.world

-- A block without the PHI nodes at its top: no PHI node follows.
abbrev pub IsPlain : List Instruction → Type 0
IsPlain = All (λ i. is_phi i.opcode ≡ false)

pub drop_phis-IsPlain :
    (is : List Instruction) → IsPlain is → (drop_phis is ≡ is) × (take_phis is ≡ [])
unfolding drop_phis take_phis
drop_phis-IsPlain [] h = (refl, refl)
drop_phis-IsPlain (i ∷ is) h = ground (arith, h.0)

pub take_phis-drop_phis : (is : List Instruction) → take_phis is ++ drop_phis is ≡ is
unfolding take_phis drop_phis
take_phis-drop_phis [] = refl
take_phis-drop_phis (i ∷ is) = ground (arith, take_phis-drop_phis is)

pub last_inst-append : (is : List Instruction) (i : Instruction) → last_inst (is ++ i ∷ []) ≡ some i
unfolding last_inst
last_inst-append [] i = refl
last_inst-append (j ∷ []) i = refl
last_inst-append (j ∷ k ∷ is) i = last_inst-append (k ∷ is) i

pub front-append : (is : List Instruction) (i : Instruction) → front (is ++ i ∷ []) ≡ is
unfolding front
front-append [] i = refl
front-append (j ∷ []) i = refl
front-append (j ∷ k ∷ is) i = ap (λ js. j ∷ js) (front-append (k ∷ is) i)

pub front-last :
    (is : List Instruction) (i : Instruction) → last_inst is ≡ some i → is ≡ front is ++ i ∷ []
unfolding front last_inst
front-last [] i h = absurd (ground (arith, h))
front-last (j ∷ []) i h = ground (arith, h)
front-last (j ∷ k ∷ is) i h = ap (λ js. j ∷ js) (front-last (k ∷ is) i h)

module _ {W : Type 0} (m : Machine W) (P : ℕ → Type 0) where
  pub value_of-Named :
      (s t : State W) (v : Value)
      → AgreesOn P s t
      → Named P v
      → value_of m s.regs v ≡ value_of m t.regs v
  value_of-Named s t (instruction i) a h = a.registers i h
  value_of-Named s t _ a h = refl

  pub operand_values-Named :
      (s t : State W) (vs : List Value)
      → AgreesOn P s t
      → All (Named P) vs
      → operand_values m s.regs vs ≡ operand_values m t.regs vs
  operand_values-Named s t [] a h = refl
  operand_values-Named s t (v ∷ vs) a h =
      ap₂ ◌∷◌ (value_of-Named s t v a h.0) (operand_values-Named s t vs a h.1)

  pub step-AgreesOn :
      (s t : State W) (i : Instruction)
      → AgreesOn P s t
      → All (Named P) i.operands
      → AgreesOn P (step m i s) (step m i t)
  unfolding step
  step-AgreesOn s t i a h =
      let same =
        ap₂ (result m i.opcode i.ty) (operand_values-Named s t i.operands a h) a.same_world in
      record {
        registers = λ j p. ground (arith, same, a.registers j p);
        same_world = ap (λ r. r.1) same;
      }

  pub exec-AgreesOn :
      (is : List Instruction) (s t : State W)
      → AgreesOn P s t
      → All (λ i. All (Named P) i.operands) is
      → AgreesOn P (exec m is s) (exec m is t)
  unfolding exec
  exec-AgreesOn [] s t a h = a
  exec-AgreesOn (i ∷ is) s t a h =
      exec-AgreesOn is (step m i s) (step m i t) (step-AgreesOn s t i a h.0) h.1

  module _ (leave : Terminators W) where
    -- Exits to the same block, in states that agree.
    pub record SameExit (d e : Exit W) : Type 0 where
      pub states : AgreesOn P d.state e.state
      pub targets : d.target ≡ e.target

    pub finish-SameExit :
        (s t : State W) (i : Instruction)
        → AgreesOn P s t
        → All (Named P) i.operands
        → SameExit (finish m leave i s) (finish m leave i t)
    finish-SameExit s t i a h =
        let same = operand_values-Named s t i.operands a h in
        let world = a.same_world in
        record {
          states = record {
            registers = λ j p. ground (arith, same, world, a.registers j p);
            same_world = rw (same, world) refl;
          };
          targets = rw (same, world) refl;
        }

module _ {W : Type 0} (m : Machine W) (leave : Terminators W) where
  run_code-append :
      (code : List Instruction) (i : Instruction) (s : State W)
      → run_code m leave (code ++ i ∷ []) s ≡ some (finish m leave i (exec m code s))
  unfolding run_code
  run_code-append code i s =
      ap₂ (λ o c. end_by m leave o c s) (last_inst-append code i) (front-append code i)

  -- A block that ends in i, after `code` and PHI nodes.
  pub run_block-ending :
      (from : ℕ) (b : BasicBlock) (code : List Instruction) (i : Instruction) (s : State W)
      → drop_phis b.instructions ≡ code ++ i ∷ []
      → run_block m leave from b s
        ≡ some (
            finish m leave i (
              exec m code (record {
                regs = assign_phis m s.regs from b.instructions s.regs;
                world = s.world;
              })))
  unfolding run_block
  run_block-ending from b code i s h = rw h (run_code-append code i _)

  pub exec_flow-next :
      (fuel from l : ℕ) (bs : List BasicBlock) (b : BasicBlock) (s : State W) (e : Exit W)
      → find_block l bs ≡ some b
      → run_block m leave from b s ≡ some e
      → exec_flow m leave (suc fuel) bs from l s
        ≡ go_on m leave (exec_flow m leave fuel bs l) (some e)
  unfolding exec_flow
  exec_flow-next fuel from l bs b s e h r = rw (h, r) refl
