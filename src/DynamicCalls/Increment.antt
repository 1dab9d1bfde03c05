-- ===== src/DynamicCalls/Increment.antt =====
-- What the code that DynamicCallCounter inserts does to the globals, and where it stands: a machine
-- for straight code with a 32-bit cell for each global.
use llvm_tutor.Prelude.{
  ℕ, ◌+◌, ◌==◌, ◌<◌, ◌≡◌, refl, ap, ◌⊎◌, inl, inr, wrap_unsigned, false, List, [], ◌∷◌, ◌++◌, All,
  if◌then◌else◌, arith,
}
use llvm_tutor.Ir.{
  Value, global, instruction, constant_int, add, Opcode, binary, phi, landing_pad, other,
  Instruction,
}
use llvm_tutor.DynamicCalls.{counter_code, insert_code}

pub record Memory : Type 0 where
  pub registers : ℕ → ℕ
  pub cells : ℕ → ℕ

abbrev update : (ℕ → ℕ) → ℕ → ℕ → ℕ → ℕ
update f k v j = if j == k then v else f j

abbrev pub value_of : Memory → Value → ℕ
value_of m (instruction k) = m.registers k
value_of m (constant_int w n) = n
value_of m _ = 0

abbrev set_register : ℕ → ℕ → Memory → Memory
set_register k v m = record m { registers = update m.registers k v }

abbrev pub exec_load : ℕ → List Value → Memory → Memory
exec_load id (global g ∷ []) m = set_register id (m.cells g) m
exec_load id _ m = m

abbrev pub exec_store : List Value → Memory → Memory
exec_store (v ∷ global g ∷ []) m = record m { cells = update m.cells g (value_of m v) }
exec_store _ m = m

abbrev pub exec_add : ℕ → List Value → Memory → Memory
exec_add id (v ∷ w ∷ []) m = set_register id (wrap_unsigned (value_of m v + value_of m w)) m
exec_add id _ m = m

-- 32 and 33 are the opcodes of loads and stores.
abbrev pub exec_inst : Instruction → Memory → Memory
exec_inst i m = elim i.opcode [
  | other k ↦
      if k == 32
      then exec_load i.id i.operands m
      else if k == 33
      then exec_store i.operands m
      else m
  | binary op ↦ elim op [ add ↦ exec_add i.id i.operands m | _ ↦ m ]
  | _ ↦ m
]

unfoldable pub exec_code : List Instruction → Memory → Memory
exec_code [] m = m
exec_code (i ∷ is) m = exec_code is (exec_inst i m)

-- The code adds one to the cell of a global, as a 32-bit number, and changes no other cell, nor a
-- register below n.
pub record IsIncrement (n var : ℕ) (code : List Instruction) : Type 0 where
  pub counts : (m : Memory) → (exec_code code m).cells var ≡ wrap_unsigned (m.cells var + 1)
  pub keeps_cells :
      (m : Memory) (g : ℕ) → (g == var) ≡ false → (exec_code code m).cells g ≡ m.cells g
  pub keeps_registers :
      (m : Memory) (k : ℕ) → k < n → (exec_code code m).registers k ≡ m.registers k

pub counter_code-IsIncrement : (n var : ℕ) → IsIncrement n var (counter_code n var)
unfolding exec_code
counter_code-IsIncrement n var = record {
  counts = λ m. ground arith;
  keeps_cells = λ m g h. ground (arith, h);
  keeps_registers = λ m k h. ground (arith, h);
}

abbrev pub IsPhi : Instruction → Type 0
IsPhi i = (ls : List ℕ) × (i.opcode ≡ phi ls)

-- Neither a PHI node nor a landing pad comes first.
abbrev pub StartsPlain : List Instruction → Type 0
StartsPlain [] = Unit
StartsPlain (i ∷ is) = (IsPhi i → ⊥) × (i.opcode ≡ landing_pad → ⊥)

-- Nothing before instructions that start plain, or a single landing pad.
abbrev pub IsPad : (pad rest : List Instruction) → Type 0
IsPad pad rest =
    ((pad ≡ []) × StartsPlain rest)
    ⊎ ((i : Instruction) × (pad ≡ i ∷ []) × (i.opcode ≡ landing_pad))

-- The code stands behind the PHI nodes and a landing pad, and nothing else is new.
pub record IsAtTop (code old new : List Instruction) : Type 0 where
  pub phis : List Instruction
  pub pad : List Instruction
  pub rest : List Instruction
  pub all_phis : All IsPhi phis
  pub is_pad : IsPad pad rest
  pub was : old ≡ phis ++ (pad ++ rest)
  pub now : new ≡ phis ++ (pad ++ (code ++ rest))

append-nil : (xs : List Instruction) → xs ≡ xs ++ []
append-nil [] = refl
append-nil (x ∷ xs) = ap (λ ys. x ∷ ys) (append-nil xs)

plain_top : (code is : List Instruction) → StartsPlain is → IsAtTop code is (code ++ is)
plain_top code is h = record {
  phis = [];
  pad = [];
  rest = is;
  all_phis = _;
  is_pad = inl (refl, h);
  was = refl;
  now = refl;
}

pad_top :
    (code : List Instruction) (i : Instruction) (is : List Instruction)
    → i.opcode ≡ landing_pad
    → IsAtTop code (i ∷ is) (i ∷ (code ++ is))
pad_top code i is h = record {
  phis = [];
  pad = i ∷ [];
  rest = is;
  all_phis = _;
  is_pad = inr (i, refl, h);
  was = refl;
  now = refl;
}

phi_top :
    (code : List Instruction) (i : Instruction) (is out : List Instruction)
    → IsPhi i
    → IsAtTop code is out
    → IsAtTop code (i ∷ is) (i ∷ out)
phi_top code i is out h t = record {
  phis = i ∷ t.phis;
  pad = t.pad;
  rest = t.rest;
  all_phis = (h, t.all_phis);
  is_pad = t.is_pad;
  was = ap (λ ys. i ∷ ys) t.was;
  now = ap (λ ys. i ∷ ys) t.now;
}

top_cases :
    (code : List Instruction) (i : Instruction) (is rest : List Instruction) (op : Opcode)
    → i.opcode ≡ op
    → IsAtTop code is rest
    → IsAtTop code (i ∷ is) (elim op as (λ x. List Instruction) [
      | phi ls ↦ i ∷ rest
      | landing_pad ↦ i ∷ (code ++ is)
      | _ ↦ code ++ (i ∷ is)
    ])
top_cases code i is rest (phi ls) e t = phi_top code i is rest (ls, e) t
top_cases code i is rest landing_pad e t = pad_top code i is e
top_cases code i is rest op e t =
    plain_top code (i ∷ is) (λ p. ground (arith, e, p.1), λ p. ground (arith, e, p))

pub insert_code-IsAtTop : (code is : List Instruction) → IsAtTop code is (insert_code code is)
unfolding insert_code
insert_code-IsAtTop code [] = record {
  phis = [];
  pad = [];
  rest = [];
  all_phis = _;
  is_pad = inl (refl, _);
  was = refl;
  now = append-nil code;
}
insert_code-IsAtTop code (i ∷ is) =
    top_cases code i is (insert_code code is) i.opcode refl (insert_code-IsAtTop code is)
