-- ===== src/Merge/Insts/Successor.antt =====
-- getSuccessor(0) and the test of MergeBB::canRemoveInst on a PHI node, described by the operands that
-- they read.
use llvm_tutor.Prelude.{
  ℕ, ◌≡◌, refl, sym, ap, ◌∙◌, ◌↔◌, ◌⊎◌, inl, inr, true, Option, none, some, List, [], ◌∷◌, ◌++◌,
  arith,
}
use llvm_tutor.Ir.{
  Value, instruction, basic_block, same_value_iff, Opcode, br, switch, Instruction, BasicBlock,
}
use llvm_tutor.Ir.Query.{find_block, last_inst, is_phi, phi_incoming}
use llvm_tutor.Ir.Described.{
  IsBlockAt, find_block_iff, IsLast, last_inst_iff, IsIncoming, phi_incoming_iff,
}
use llvm_tutor.Merge.Insts.{
  last_target, default_target, successor0, is_label, is_value, used_in_phi,
}

-- A branch has its first successor as the last operand, a switch as the second one.
abbrev pub IsFirstTarget : Instruction → ℕ → Type 0
IsFirstTarget t k =
    ((t.opcode ≡ br) × IsLast t.operands (basic_block k))
    ⊎ ((t.opcode ≡ switch)
        × ((c : Value) × (vs : List Value) × (t.operands ≡ c ∷ basic_block k ∷ vs)))

-- The first successor of block l is k.
abbrev pub IsSuccessor0 : List BasicBlock → ℕ → ℕ → Type 0
IsSuccessor0 bs l k =
    (b : BasicBlock) × (t : Instruction) × IsBlockAt bs l b
    × IsLast b.instructions t
    × IsFirstTarget t k

last_target_found : (vs : List Value) (k : ℕ) → last_target vs ≡ some k → IsLast vs (basic_block k)
unfolding last_target
last_target_found [] k h = absurd (ground (arith, h))
last_target_found (basic_block l ∷ []) k h =
    let same : l ≡ k = ground (arith, h) in ([], ap (λ x. basic_block x ∷ []) same)
last_target_found (v ∷ []) k h = absurd (ground (arith, h))
last_target_found (v ∷ w ∷ vs) k h =
    let rest = last_target_found (w ∷ vs) k h in (v ∷ rest.0, ap (λ x. v ∷ x) rest.1)

last_target-there :
    (front : List Value) (k : ℕ) → last_target (front ++ (basic_block k ∷ [])) ≡ some k
unfolding last_target
last_target-there [] k = refl
last_target-there (v ∷ []) k = ground arith
last_target-there (v ∷ w ∷ vs) k = last_target-there (w ∷ vs) k

default_found :
    (vs : List Value) (k : ℕ)
    → default_target vs ≡ some k
    → (c : Value) × (rest : List Value) × (vs ≡ c ∷ basic_block k ∷ rest)
default_found (c ∷ basic_block l ∷ vs) k h =
    let same : l ≡ k = ground (arith, h) in (c, vs, ap (λ x. c ∷ basic_block x ∷ vs) same)
default_found _ k h = absurd (ground (arith, h))

abbrev target_by : Opcode → List Value → Option ℕ
target_by op vs = elim op [ br ↦ last_target vs | switch ↦ default_target vs | _ ↦ none ]

target_found :
    (t : Instruction) (k : ℕ) (op : Opcode)
    → t.opcode ≡ op
    → target_by op t.operands ≡ some k
    → IsFirstTarget t k
target_found t k br e h = inl (e, last_target_found t.operands k h)
target_found t k switch e h = inr (e, default_found t.operands k h)
target_found t k op e h = absurd (ground (arith, h))

target_by-there :
    (t : Instruction) (k : ℕ) → IsFirstTarget t k → target_by t.opcode t.operands ≡ some k
target_by-there t k (inl (e, (front, h))) = rw (e, h) (last_target-there front k)
target_by-there t k (inr (e, (c, vs, h))) = rw (e, h) refl

abbrev successor_of : Option Instruction → Option ℕ
successor_of o = elim o [ none ↦ none | some t ↦ target_by t.opcode t.operands ]

abbrev successor_at : Option BasicBlock → Option ℕ
successor_at o = elim o [ none ↦ none | some b ↦ successor_of (last_inst b.instructions) ]

successor0-at : (bs : List BasicBlock) (l : ℕ) → successor0 bs l ≡ successor_at (find_block l bs)
unfolding successor0
successor0-at bs l = refl

IsLast-successor :
    (is : List Instruction) (k : ℕ) (o : Option Instruction)
    → last_inst is ≡ o
    → successor_of o ≡ some k
    → (t : Instruction) × IsLast is t × IsFirstTarget t k
IsLast-successor is k none e h = absurd (ground (arith, h))
IsLast-successor is k (some t) e h = (t, (last_inst_iff is t).0 e, target_found t k t.opcode refl h)

block_successor :
    (bs : List BasicBlock) (l k : ℕ) (o : Option BasicBlock)
    → find_block l bs ≡ o
    → successor_at o ≡ some k
    → IsSuccessor0 bs l k
block_successor bs l k none e h = absurd (ground (arith, h))
block_successor bs l k (some b) e h =
    let last = IsLast-successor b.instructions k _ refl h in
    (b, last.0, (find_block_iff l bs b).0 e, last.1, last.2)

pub successor0_iff :
    (bs : List BasicBlock) (l k : ℕ) → (successor0 bs l ≡ some k) ↔ IsSuccessor0 bs l k
successor0_iff bs l k = (
  λ h. block_successor bs l k _ refl (sym (successor0-at bs l) ∙ h),
  λ (b, t, at, last, target).
      successor0-at bs l
      ∙ ap successor_at ((find_block_iff l bs b).1 at)
      ∙ ap successor_of ((last_inst_iff b.instructions t).1 last)
      ∙ target_by-there t k target,
)

is_label_iff : (o : Option ℕ) (k : ℕ) → (is_label o k ≡ true) ↔ (o ≡ some k)
is_label_iff none k = ground arith
is_label_iff (some l) k = ground arith

is_value_iff : (o : Option Value) (v : Value) → (is_value o v ≡ true) ↔ (o ≡ some v)
is_value_iff none v = ground arith
is_value_iff (some u) v = ground (arith, same_value_iff u v)

phi_opcode : (u : Instruction) (l : ℕ) (v : Value) → IsIncoming u l v → is_phi u.opcode ≡ true
phi_opcode u l v (ls, e, t) = rw e refl

pub used_in_phi_iff :
    (bs : List BasicBlock) (l : ℕ) (i : Instruction) (k : ℕ) (u : Instruction)
    → (used_in_phi bs l i k u ≡ true) ↔ (IsSuccessor0 bs l k × IsIncoming u l (instruction i.id))
used_in_phi_iff bs l i k u = ground (
  arith,
  is_label_iff (successor0 bs l) k,
  successor0_iff bs l k,
  is_value_iff (phi_incoming u l) (instruction i.id),
  phi_incoming_iff u l (instruction i.id),
  phi_opcode u l (instruction i.id),
)
