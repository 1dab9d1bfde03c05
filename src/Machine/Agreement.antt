-- ===== src/Machine/Agreement.antt =====
-- States that agree on the registers below a bound and on the world, and code whose registers lie
-- below it.
use llvm_tutor.Prelude.{ℕ, ◌≤◌, ◌<◌, ◌≡◌, refl, ap, ap₂, ◌∙◌, List, [], ◌∷◌, arith, All}
use llvm_tutor.Ir.{Value, instruction, Instruction}
use llvm_tutor.Machine.Exec.{Machine, State, value_of, result, operand_values, step, exec}

abbrev pub Below : ℕ → Value → Type 0
Below n (instruction i) = i < n
Below n v = Unit

abbrev pub IsBelow : ℕ → Instruction → Type 0
IsBelow n i = (i.id < n) × All (Below n) i.operands

pub Below-mono : (n k : ℕ) (v : Value) → n ≤ k → Below n v → Below k v
Below-mono n k (instruction i) h b = omega arith
Below-mono n k _ h b = tt

pub All-Below_mono : (n k : ℕ) (vs : List Value) → n ≤ k → All (Below n) vs → All (Below k) vs
All-Below_mono n k [] h b = tt
All-Below_mono n k (v ∷ vs) h b = (Below-mono n k v h b.0, All-Below_mono n k vs h b.1)

pub IsBelow-mono : (n k : ℕ) (i : Instruction) → n ≤ k → IsBelow n i → IsBelow k i
IsBelow-mono n k i h b = (omega arith, All-Below_mono n k i.operands h b.1)

pub All-IsBelow_mono :
    (n k : ℕ) (is : List Instruction) → n ≤ k → All (IsBelow n) is → All (IsBelow k) is
All-IsBelow_mono n k [] h b = tt
All-IsBelow_mono n k (i ∷ is) h b = (IsBelow-mono n k i h b.0, All-IsBelow_mono n k is h b.1)

pub record Agrees {W : Type 0} (n : ℕ) (s t : State W) : Type 0 where
  pub registers : (i : ℕ) → i < n → s.regs i ≡ t.regs i
  pub same_world : s.world ≡ t.world

module _ {W : Type 0} where
  pub Agrees-refl : (n : ℕ) (s : State W) → Agrees n s s
  Agrees-refl n s = record { registers = λ i h. refl; same_world = refl }

  pub Agrees-trans : (n : ℕ) (s t u : State W) → Agrees n s t → Agrees n t u → Agrees n s u
  Agrees-trans n s t u p q = record {
    registers = λ i h. p.registers i h ∙ q.registers i h;
    same_world = p.same_world ∙ q.same_world;
  }

  pub Agrees-weaken : (n k : ℕ) (s t : State W) → n ≤ k → Agrees k s t → Agrees n s t
  Agrees-weaken n k s t h p = record {
    registers = λ i l. p.registers i (omega arith);
    same_world = p.same_world;
  }

module _ {W : Type 0} (m : Machine W) where
  pub value_of-Agrees :
      (n : ℕ) (s t : State W) (v : Value)
      → Agrees n s t
      → Below n v
      → value_of m s.regs v ≡ value_of m t.regs v
  value_of-Agrees n s t (instruction i) p b = p.registers i b
  value_of-Agrees n s t _ p b = refl

  pub operand_values-Agrees :
      (n : ℕ) (s t : State W) (vs : List Value)
      → Agrees n s t
      → All (Below n) vs
      → operand_values m s.regs vs ≡ operand_values m t.regs vs
  operand_values-Agrees n s t [] p b = refl
  operand_values-Agrees n s t (v ∷ vs) p b =
      ap₂ ◌∷◌ (value_of-Agrees n s t v p b.0) (operand_values-Agrees n s t vs p b.1)

  pub step-Agrees :
      (n : ℕ) (s t : State W) (i : Instruction)
      → Agrees n s t
      → All (Below n) i.operands
      → Agrees n (step m i s) (step m i t)
  unfolding step
  step-Agrees n s t i p b =
      let same =
        ap₂ (result m i.opcode i.ty) (operand_values-Agrees n s t i.operands p b) p.same_world in
      record {
        registers = λ j h. ground (arith, same, p.registers j h);
        same_world = ap (λ r. r.1) same;
      }

  pub exec-Agrees :
      (n : ℕ) (is : List Instruction) (s t : State W)
      → Agrees n s t
      → All (IsBelow n) is
      → Agrees n (exec m is s) (exec m is t)
  unfolding exec
  exec-Agrees n [] s t p b = p
  exec-Agrees n (i ∷ is) s t p b =
      exec-Agrees n is (step m i s) (step m i t) (step-Agrees n s t i p b.0.1) b.1
