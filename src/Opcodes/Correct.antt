-- ===== src/Opcodes/Correct.antt =====
-- The numbers of OpcodeCounter, against counting in the function directly.
use Prim.Native.String.{String}
use llvm_tutor.Prelude.{
  ℕ, ◌+◌, ◌≡◌, refl, ap, ◌∙◌, List, [], ◌∷◌, if◌then◌else◌, arith, wrap_unsigned, Bool-cases, inl,
  inr,
}
use llvm_tutor.Prelude.Containers.{string_eq, ◌===◌, find, lookup, lookup-modify}
use llvm_tutor.Ir.{Opcode, Instruction, BasicBlock}
use llvm_tutor.Opcodes.{
  ResultOpcodeCounter, count_opcode, count_block, count_blocks, generate_opcode_map,
}

count_opcode-lookup :
    (name other : String) (m : ResultOpcodeCounter)
    → lookup other 0 (count_opcode name m)
      ≡ (if name === other then wrap_unsigned (lookup name 0 m + 1) else lookup other 0 m)
unfolding count_opcode lookup
count_opcode-lookup name other m = ground (
  arith,
  lookup-modify name other 0 (λ n. 1) m,
  lookup-modify name other 0 (λ k. wrap_unsigned (k + 1)) m,
)

-- The number of `other` modulo 2^32 counts up with each occurrence of the name.
count_opcode-counts :
    (name other : String) (m : ResultOpcodeCounter) (c : ℕ)
    → lookup other 0 m ≡ wrap_unsigned c
    → lookup other 0 (count_opcode name m) ≡ wrap_unsigned (if name === other then c + 1 else c)
count_opcode-counts name other m c h = elim (Bool-cases (name === other)) [
  | inl e ↦
      let same = ap (λ k. lookup k 0 m) ((string_eq.beq_iff name other).0 e) in
      count_opcode-lookup name other m ∙ rw e (omega (arith, same, h))
  | inr e ↦ count_opcode-lookup name other m ∙ rw e h
]

module _ (get_opcode_name : Opcode → String) where
  -- How many instructions carry the name.
  unfoldable pub occurrences_in_block : String → List Instruction → ℕ
  occurrences_in_block name [] = 0
  occurrences_in_block name (i ∷ is) =
      let rest = occurrences_in_block name is in
      if get_opcode_name i.opcode === name then rest + 1 else rest

  unfoldable pub occurrences : String → List BasicBlock → ℕ
  occurrences name [] = 0
  occurrences name (b ∷ bs) = occurrences_in_block name b.instructions + occurrences name bs

  block_counts :
      (name : String) (is : List Instruction) (m : ResultOpcodeCounter) (c : ℕ)
      → lookup name 0 m ≡ wrap_unsigned c
      → lookup name 0 (count_block get_opcode_name is m)
        ≡ wrap_unsigned (c + occurrences_in_block name is)
  unfolding count_block occurrences_in_block
  block_counts name [] m c h = ground (arith, h)
  block_counts name (i ∷ is) m c h =
      let here = count_opcode-counts (get_opcode_name i.opcode) name m c h in
      ground (arith, block_counts name is _ _ here)

  blocks_count :
      (name : String) (bs : List BasicBlock) (m : ResultOpcodeCounter) (c : ℕ)
      → lookup name 0 m ≡ wrap_unsigned c
      → lookup name 0 (count_blocks get_opcode_name bs m) ≡ wrap_unsigned (c + occurrences name bs)
  unfolding count_blocks occurrences
  blocks_count name [] m c h = ground (arith, h)
  blocks_count name (b ∷ bs) m c h =
      let here = block_counts name b.instructions m c h in
      blocks_count name bs _ _ here ∙ omega arith

  -- The number of every opcode name is how many instructions of the function have it, as a 32-bit
  -- number, and 0 for a name that does not occur.
  pub generate_opcode_map-lookup :
      (name : String) (bs : List BasicBlock)
      → lookup name 0 (generate_opcode_map get_opcode_name bs) ≡ wrap_unsigned (occurrences name bs)
  unfolding generate_opcode_map lookup find
  generate_opcode_map-lookup name bs = ground (arith, blocks_count name bs [] 0 refl)
