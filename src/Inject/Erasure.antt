-- ===== src/Inject/Erasure.antt =====
-- A function without the instructions from an identity on.
use llvm_tutor.Prelude.{ℕ, ◌≤◌, ◌≡◌, refl, ap, true, List, [], ◌∷◌, if◌then◌else◌, All, arith, ltb}
use llvm_tutor.Ir.{Opcode, phi, landing_pad, Instruction, BasicBlock, Function}
use llvm_tutor.Inject.{insert_at_top}

-- Instructions whose identity is n or above are left out.
unfoldable pub erase : ℕ → List Instruction → List Instruction
erase n [] = []
erase n (i ∷ is) = let rest = erase n is in if ltb i.id n then i ∷ rest else rest

unfoldable pub erase_blocks : ℕ → List BasicBlock → List BasicBlock
erase_blocks n [] = []
erase_blocks n (b ∷ bs) = record b { instructions = erase n b.instructions } ∷ erase_blocks n bs

unfoldable pub erase_functions : ℕ → List Function → List Function
erase_functions n [] = []
erase_functions n (f ∷ fs) = record f { blocks = erase_blocks n f.blocks } ∷ erase_functions n fs

-- All instructions have identities below n.
abbrev pub IsBelowAll : ℕ → List Function → Type 0
IsBelowAll n fs = All (λ f. All (λ b. All (λ i. ltb i.id n ≡ true) b.instructions) f.blocks) fs

module _ (n0 : ℕ) where
  pub erase_new :
      (c : Instruction) (is : List Instruction) → n0 ≤ c.id → erase n0 (c ∷ is) ≡ erase n0 is
  unfolding erase
  erase_new c is h = ground (arith, h)

  pub erase_below :
      (i : Instruction) (is js : List Instruction)
      → erase n0 is ≡ erase n0 js
      → erase n0 (i ∷ is) ≡ erase n0 (i ∷ js)
  unfolding erase
  erase_below i is js h = ground (arith, h)

  erase_top :
      (c i : Instruction) (is rest : List Instruction) (op : Opcode)
      → n0 ≤ c.id
      → erase n0 rest ≡ erase n0 is
      → erase n0 (elim op as (λ x. List Instruction) [
        | phi ls ↦ i ∷ rest
        | landing_pad ↦ i ∷ c ∷ is
        | _ ↦ c ∷ i ∷ is
      ])
        ≡ erase n0 (i ∷ is)
  erase_top c i is rest (phi ls) h e = erase_below i rest is e
  erase_top c i is rest landing_pad h e = erase_below i (c ∷ is) is (erase_new c is h)
  erase_top c i is rest _ h e = erase_new c (i ∷ is) h

  pub erase-insert_at_top :
      (c : Instruction) (is : List Instruction)
      → n0 ≤ c.id
      → erase n0 (insert_at_top c is) ≡ erase n0 is
  unfolding insert_at_top
  erase-insert_at_top c [] h = erase_new c [] h
  erase-insert_at_top c (i ∷ is) h = erase_top c i is _ i.opcode h (erase-insert_at_top c is h)

  erase-All : (is : List Instruction) → All (λ i. ltb i.id n0 ≡ true) is → erase n0 is ≡ is
  unfolding erase
  erase-All [] a = refl
  erase-All (i ∷ is) (a, more) = rw a (ap (λ r. i ∷ r) (erase-All is more))

  pub erase-All_blocks :
      (bs : List BasicBlock)
      → All (λ b. All (λ i. ltb i.id n0 ≡ true) b.instructions) bs
      → erase_blocks n0 bs ≡ bs
  unfolding erase_blocks
  erase-All_blocks [] a = refl
  erase-All_blocks (b ∷ bs) (a, more) =
      λ k. record b { instructions = erase-All b.instructions a k } ∷ erase-All_blocks bs more k

  pub erase_all_functions : (fs : List Function) → IsBelowAll n0 fs → erase_functions n0 fs ≡ fs
  unfolding erase_functions
  erase_all_functions [] a = refl
  erase_all_functions (f ∷ fs) (a, more) =
      λ k. record f { blocks = erase-All_blocks f.blocks a k } ∷ erase_all_functions fs more k
