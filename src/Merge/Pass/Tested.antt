-- ===== src/Merge/Pass/Tested.antt =====
-- The single tests of the loop of MergeBB::mergeDuplicatedBlock, described by the lists of blocks,
-- instructions and operands.
use llvm_tutor.Prelude.{
  ℕ, ◌==◌, ◌≡◌, refl, sym, ap, ◌∙◌, ◌↔◌, inl, inr, true, false, Option, none, some, List, [], ◌∷◌,
  length, wrap_unsigned, if◌then◌else◌, arith, Bool-cases, Option-cases,
}
use llvm_tutor.Prelude.Containers.{nat_eq}
use llvm_tutor.Ir.{
  Value, instruction, basic_block, same_value_iff, br, Opcode, Instruction, BasicBlock,
}
use llvm_tutor.Ir.Query.{
  find_block, is_entry, is_dbg, last_inst, is_branch, branch_target, unconditional_target,
  phi_incoming,
}
use llvm_tutor.Ir.Described.{
  IsBlockAt, find_block_iff, IsLast, last_inst_iff, IsIncoming, phi_incoming_iff, IsDefinedIn,
  in_block_iff,
}
use llvm_tutor.Merge.Lockstep.Pairs.{non_dbg}
use llvm_tutor.Merge.Pass.{
  num_non_dbg, block_target, similar, defined_in, phi_allows, is_unconditional,
}

-- Block l ends in a branch with a single operand, the block k.
abbrev pub EndsInJump : List BasicBlock → ℕ → ℕ → Type 0
EndsInJump bs l k =
    (b : BasicBlock) × (t : Instruction) × IsBlockAt bs l b
    × IsLast b.instructions t
    × (t.opcode ≡ br)
    × (t.operands ≡ basic_block k ∷ [])

jump_found :
    (t : Instruction) (op : Opcode) (vs : List Value) (k : ℕ)
    → t.opcode ≡ op
    → t.operands ≡ vs
    → (if is_branch op then branch_target vs else none) ≡ some k
    → (t.opcode ≡ br) × (t.operands ≡ basic_block k ∷ [])
jump_found t br (basic_block l ∷ []) k e f h =
    let same : l ≡ k = ground (arith, h) in (e, f ∙ ap (λ x. basic_block x ∷ []) same)
jump_found t op vs k e f h = absurd (ground (arith, h))

abbrev jump_of : Option Instruction → Option ℕ
jump_of o = elim o [ none ↦ none | some t ↦ unconditional_target t ]

abbrev jump_at : Option BasicBlock → Option ℕ
jump_at o = elim o [ none ↦ none | some b ↦ jump_of (last_inst b.instructions) ]

block_target-at : (bs : List BasicBlock) (l : ℕ) → block_target bs l ≡ jump_at (find_block l bs)
unfolding block_target
block_target-at bs l = refl

IsLast-jump :
    (is : List Instruction) (k : ℕ) (o : Option Instruction)
    → last_inst is ≡ o
    → jump_of o ≡ some k
    → (t : Instruction) × IsLast is t × (t.opcode ≡ br) × (t.operands ≡ basic_block k ∷ [])
IsLast-jump is k none e h = absurd (ground (arith, h))
IsLast-jump is k (some t) e h =
    let jump = jump_found t t.opcode t.operands k refl refl h in
    (t, (last_inst_iff is t).0 e, jump.0, jump.1)

block_jump :
    (bs : List BasicBlock) (l k : ℕ) (o : Option BasicBlock)
    → find_block l bs ≡ o
    → jump_at o ≡ some k
    → EndsInJump bs l k
block_jump bs l k none e h = absurd (ground (arith, h))
block_jump bs l k (some b) e h =
    let last = IsLast-jump b.instructions k _ refl h in
    (b, last.0, (find_block_iff l bs b).0 e, last.1, last.2, last.3)

block_target_iff :
    (bs : List BasicBlock) (l k : ℕ) → (block_target bs l ≡ some k) ↔ EndsInJump bs l k
block_target_iff bs l k = (
  λ h. block_jump bs l k _ refl (sym (block_target-at bs l) ∙ h),
  λ (b, t, at, last, e, f).
      block_target-at bs l
      ∙ ap jump_at ((find_block_iff l bs b).1 at)
      ∙ ap jump_of ((last_inst_iff b.instructions t).1 last)
      ∙ rw (e, f) refl,
)

pub unconditional_iff :
    (bs : List BasicBlock) (l : ℕ)
    → (is_unconditional (block_target bs l) ≡ true) ↔ ((k : ℕ) × EndsInJump bs l k)
unconditional_iff bs l = (
  λ h. elim (Option-cases (block_target bs l)) [
    | inl e ↦ absurd (ground (arith, h, e))
    | inr (k, e) ↦ (k, (block_target_iff bs l k).0 e)
  ],
  λ (k, d). ap is_unconditional ((block_target_iff bs l k).1 d),
)

pub num_non_dbg-eq : (is : List Instruction) → num_non_dbg is ≡ wrap_unsigned (length (non_dbg is))
unfolding num_non_dbg non_dbg
num_non_dbg-eq [] = refl
num_non_dbg-eq (i ∷ is) = elim (Bool-cases (is_dbg i.opcode)) [
  | inl e ↦ rw e (num_non_dbg-eq is)
  | inr e ↦ rw e (ground (arith, num_non_dbg-eq is))
]

-- The successor has no PHI node, or the node takes one value from both blocks, or from each of them an
-- instruction that the block has.
pub data PhiFits (bs : List BasicBlock) (l1 l2 : ℕ) : Option Instruction → Type 0 where
  no_phi : PhiFits bs l1 l2 none
  same_value :
      (p : Instruction) (v : Value)
      → IsIncoming p l1 v
      → IsIncoming p l2 v
      → PhiFits bs l1 l2 (some p)
  both_defined :
      (p : Instruction) (x y : ℕ)
      → IsIncoming p l1 (instruction x)
      → IsIncoming p l2 (instruction y)
      → IsDefinedIn bs l1 x
      → IsDefinedIn bs l2 y
      → PhiFits bs l1 l2 (some p)

similar_found :
    (a b : Option Value) → similar a b ≡ true → (v : Value) × (a ≡ some v) × (b ≡ some v)
similar_found (some v) (some w) h =
    let same : v ≡ w = ground (arith, same_value_iff v w, h) in (v, refl, ap some (sym same))
similar_found none b h = absurd (ground (arith, h))
similar_found (some v) none h = absurd (ground (arith, h))

similar-same : (v : Value) → similar (some v) (some v) ≡ true
similar-same v = (same_value_iff v v).1 refl

defined_found :
    (bs : List BasicBlock) (l : ℕ) (o : Option Value)
    → defined_in bs l o ≡ true
    → (x : ℕ) × (o ≡ some (instruction x)) × IsDefinedIn bs l x
defined_found bs l (some (instruction x)) h = (x, refl, (in_block_iff bs x l).0 h)
defined_found bs l o h = absurd (ground (arith, h))

pub phi_fits :
    (bs : List BasicBlock) (pn : Option Instruction) (l1 l2 : ℕ)
    → phi_allows bs pn l1 l2 ≡ true
    → PhiFits bs l1 l2 pn
unfolding phi_allows
phi_fits bs none l1 l2 h = no_phi
phi_fits bs (some p) l1 l2 h = elim (Bool-cases (similar (phi_incoming p l1) (phi_incoming p l2))) [
  | inl e ↦
      let found = similar_found (phi_incoming p l1) (phi_incoming p l2) e in
      same_value p found.0 ((phi_incoming_iff p l1 found.0).0 found.1)
        ((phi_incoming_iff p l2 found.0).0 found.2)
  | inr e ↦
      let one = defined_found bs l1 (phi_incoming p l1) (ground (arith, h, e)) in
      let two = defined_found bs l2 (phi_incoming p l2) (ground (arith, h, e)) in
      both_defined p one.0 two.0 ((phi_incoming_iff p l1 (instruction one.0)).0 one.1)
        ((phi_incoming_iff p l2 (instruction two.0)).0 two.1) one.2 two.2
]

pub phi_allows-fits :
    (bs : List BasicBlock) (l1 l2 : ℕ) (pn : Option Instruction)
    → PhiFits bs l1 l2 pn
    → phi_allows bs pn l1 l2 ≡ true
unfolding phi_allows
phi_allows-fits bs l1 l2 _ no_phi = refl
phi_allows-fits bs l1 l2 _ (same_value p v a b) =
    rw ((phi_incoming_iff p l1 v).1 a, (phi_incoming_iff p l2 v).1 b)
      (ground (arith, similar-same v))
phi_allows-fits bs l1 l2 _ (both_defined p x y a b c d) =
    rw ((phi_incoming_iff p l1 (instruction x)).1 a, (phi_incoming_iff p l2 (instruction y)).1 b)
      (ground (arith, (in_block_iff bs x l1).1 c, (in_block_iff bs y l2).1 d))

-- The first block of the list does not have the label.
abbrev pub IsNoEntry : List BasicBlock → ℕ → Type 0
IsNoEntry [] l = Unit
IsNoEntry (b ∷ bs) l = b.label ≡ l → ⊥

pub IsNoEntry-iff : (bs : List BasicBlock) (l : ℕ) → (is_entry bs l ≡ false) ↔ IsNoEntry bs l
unfolding is_entry
IsNoEntry-iff [] l = ground arith
IsNoEntry-iff (b ∷ bs) l = elim (Bool-cases (b.label == l)) [
  | inl e ↦ (λ h. absurd (ground (arith, h, e)), λ n. absurd (n (ground (arith, e))))
  | inr e ↦ (λ h p. ground (arith, e, p), λ n. e)
]
