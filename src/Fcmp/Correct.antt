-- ===== src/Fcmp/Correct.antt =====
-- One round of ConvertFCmpEq's loop: the comparison with a given identity, and no other, is gone.
use llvm_tutor.Prelude.{
  ℕ, ◌==◌, ◌≡◌, refl, true, false, not, ◌||◌, ◌&&◌, inl, inr, List, [], ◌∷◌, ◌++◌, All, All-append,
  arith, Bool-cases,
}
use llvm_tutor.Prelude.Containers.{nat_eq, contains}
use llvm_tutor.Ir.{Instruction, BasicBlock}
use llvm_tutor.Fcmp.{
  is_fcmp_eq, find_in_block, find_fcmp_eq, FcmpBuilder, Converted, Conversion, convert_in_block,
  convert_in_blocks,
}
use llvm_tutor.Fcmp.Attempt.{IsNoFcmpEq, IsQuiet, IsFormed, IsFormed-All, IsDone, no, yes, attempt}

found_append :
    (is js : List Instruction) (k : ℕ)
    → contains (find_in_block (is ++ js)) k
      ≡ (contains (find_in_block is) k || contains (find_in_block js) k)
unfolding find_in_block contains
found_append [] js k = refl
found_append (i ∷ is) js k = ground (arith, found_append is js k)

found_none :
    (is : List Instruction) (k : ℕ) → All IsNoFcmpEq is → contains (find_in_block is) k ≡ false
unfolding find_in_block contains
found_none [] k a = refl
found_none (i ∷ is) k (a, more) = ground (arith, found_none is k more, a)

contains-append :
    (xs ys : List ℕ) (k : ℕ) → contains (xs ++ ys) k ≡ (contains xs k || contains ys k)
unfolding contains
contains-append [] ys k = refl
contains-append (x ∷ xs) ys k = ground (arith, contains-append xs ys k)

module _ (builder : FcmpBuilder) (law : IsQuiet builder) where
  -- In a block: the comparisons with identity x are gone, all others are there, and the flag says
  -- whether there was one.
  record BlockDone (x : ℕ) (is : List Instruction) (c : Conversion (List Instruction))
      : Type 0 where
    gone :
        (k : ℕ) → contains (find_in_block c.now) k ≡ (not (x == k) && contains (find_in_block is) k)
    formed : All IsFormed c.now
    flagged : c.converted ≡ contains (find_in_block is) x

  kept :
      (x : ℕ) (i : Instruction) (is : List Instruction) (r : Conversion (List Instruction))
      → BlockDone x is r
      → IsFormed i
      → ((i.id == x) && is_fcmp_eq i.opcode) ≡ false
      → BlockDone x (i ∷ is) (record r { now = i ∷ r.now })
  unfolding find_in_block contains
  kept x i is r rest w e = record {
    gone = λ k. ground (arith, rest.gone k, e);
    formed = (w, rest.formed);
    flagged = ground (arith, rest.flagged, e);
  }

  changed :
      (x : ℕ) (i : Instruction) (is : List Instruction) (c : Converted)
      (r : Conversion (List Instruction))
      → BlockDone x is r
      → IsDone c
      → (i.id == x) ≡ true
      → is_fcmp_eq i.opcode ≡ true
      → BlockDone x
          (i ∷ is)
          (record { now = c.code ++ (c.inst ∷ r.now); next = r.next; converted = true })
  unfolding find_in_block contains
  changed x i is c r rest d here q = record {
    gone = λ k. ground (
      arith,
      found_append c.code (c.inst ∷ r.now) k,
      found_none c.code k d.code,
      rest.gone k,
      d.inst,
      here,
      q,
    );
    formed =
        All-append IsFormed c.code _ (IsFormed-All c.code d.code)
          (ground (arith, d.inst), rest.formed);
    flagged = ground (arith, here, q);
  }

  block_done :
      (x : ℕ) (is : List Instruction) (n : ℕ)
      → All IsFormed is
      → BlockDone x is (convert_in_block builder x is n)
  unfolding convert_in_block find_in_block contains
  block_done x [] n w = record { gone = λ k. ground arith; formed = _; flagged = refl }
  block_done x (i ∷ is) n (w, ws) = elim (Bool-cases (i.id == x)) [
    | inr other ↦
        rw (other, convert_in_block)
          (kept x i is _ (block_done x is n ws) w (ground (arith, other)))
    | inl here ↦ elim (attempt builder law i n w) [
      | no e q ↦
          rw (here, e, convert_in_block)
            (kept x i is _ (block_done x is n ws) w (ground (arith, q)))
      | yes c e q d ↦
          rw (here, e, convert_in_block) (changed x i is c _ (block_done x is c.next ws) d here q)
    ]
  ]

  pub record BlocksDone (x : ℕ) (bs : List BasicBlock) (c : Conversion (List BasicBlock))
      : Type 0 where
    pub gone :
        (k : ℕ) → contains (find_fcmp_eq c.now) k ≡ (not (x == k) && contains (find_fcmp_eq bs) k)
    pub formed : All (λ b. All IsFormed b.instructions) c.now
    pub flagged : c.converted ≡ contains (find_fcmp_eq bs) x

  pub blocks_done :
      (x : ℕ) (bs : List BasicBlock) (n : ℕ)
      → All (λ b. All IsFormed b.instructions) bs
      → BlocksDone x bs (convert_in_blocks builder x bs n)
  unfolding convert_in_blocks find_fcmp_eq
  blocks_done x [] n w = record {
    gone = λ k. unfold contains in ground arith;
    formed = _;
    flagged = unfold contains in refl;
  }
  blocks_done x (b ∷ bs) n (w, ws) =
      let here = block_done x b.instructions n w in
      let c = convert_in_block builder x b.instructions n in
      let rest = blocks_done x bs c.next ws in
      let r = convert_in_blocks builder x bs c.next in
      record {
        gone = λ k. ground (
          arith,
          here.gone k,
          rest.gone k,
          contains-append (find_in_block c.now) (find_fcmp_eq r.now) k,
          contains-append (find_in_block b.instructions) (find_fcmp_eq bs) k,
        );
        formed = (here.formed, rest.formed);
        flagged = ground (
          arith,
          here.flagged,
          rest.flagged,
          contains-append (find_in_block b.instructions) (find_fcmp_eq bs) x,
        );
      }
