-- ===== src/Mba/Rewrite/Preserve.antt =====
-- If each replacement computes what the replaced instruction did, so does the rewritten code.
use llvm_tutor.Prelude.{
  ℕ, ◌≤◌, ◌≡◌, ap, some, List, [], ◌∷◌, ◌++◌, arith, All, All-append, Option-cases, inl, inr, true,
  ◌+◌,
}
use llvm_tutor.Ir.{BinaryOp, Opcode, Value, add, binary, Instruction}
use llvm_tutor.Machine.Exec.{
  Machine, State, value_of, result, operand_values, step, exec, exec-append,
}
use llvm_tutor.Machine.Agreement.{
  Below, Below-mono, IsBelow, IsBelow-mono, Agrees, Agrees-refl, Agrees-trans, Agrees-weaken,
  All-IsBelow_mono, exec-Agrees,
}
use llvm_tutor.Mba.Rewrite.{
  binary_operands, Replacement, Rewriter, new_inst, Rewritten, run_on_basic_block,
}

pub binary_operands-eq-some :
    (o : Opcode) (vs : List Value) (op : BinaryOp) (l r : Value)
    → binary_operands o vs ≡ some (op, l, r)
    → (o ≡ binary op) × (vs ≡ l ∷ r ∷ [])
binary_operands-eq-some (binary op') (l' ∷ r' ∷ []) op l r h = ground arith
binary_operands-eq-some _ _ op l r h = ground arith

module _ {W : Type 0} (m : Machine W) where
  pub record Replaces (n : ℕ) (s : State W) (i : Instruction) (p : Replacement) : Type 0 where
    pub grows : n ≤ p.next
    pub code_below : All (IsBelow p.next) p.code
    pub lhs_below : Below p.next p.lhs
    pub rhs_below : Below p.next p.rhs
    pub keeps : Agrees n (exec m p.code s) s
    pub same :
        let t = exec m p.code s in
        result m (binary add) i.ty (value_of m t.regs p.lhs ∷ value_of m t.regs p.rhs ∷ []) t.world
        ≡ result m i.opcode i.ty (operand_values m s.regs i.operands) s.world

  -- Each chosen instruction is replaced by code with its result.
  abbrev pub IsCorrect : Rewriter → Type 0
  IsCorrect p =
      (i : Instruction) (l r : Value)
      → p.candidate i ≡ some (l, r)
      → (n : ℕ) (s : State W) → IsBelow n i
      → Replaces n s i (p.replacement i.ty l r n)

  step-new_inst :
      (n : ℕ) (s : State W) (i : Instruction) (q : Replacement)
      → Replaces n s i q
      → Agrees n (step m (new_inst i q) (exec m q.code s)) (step m i s)
  unfolding step
  step-new_inst n s i q h = record {
    registers = λ j l. ground (arith, h.same, h.keeps.registers j l);
    same_world = ap (λ r. r.1) h.same;
  }

  pub record IsPreserved (n : ℕ) (is : List Instruction) (out : Rewritten (List Instruction))
      : Type 0 where
    pub grows : n ≤ out.next
    pub code_below : All (IsBelow out.next) out.code
    pub agrees : (s : State W) → Agrees n (exec m out.code s) (exec m is s)

  IsPreserved-cons_kept :
      (n : ℕ) (i : Instruction) (is : List Instruction) (rest : Rewritten (List Instruction))
      → IsBelow n i
      → IsPreserved n is rest
      → IsPreserved n (i ∷ is) (record rest { code = i ∷ rest.code })
  unfolding exec
  IsPreserved-cons_kept n i is rest b h = record {
    grows = h.grows;
    code_below = (IsBelow-mono n rest.next i h.grows b, h.code_below);
    agrees = λ s. h.agrees (step m i s);
  }

  IsPreserved-cons_replaced :
      (n : ℕ) (i : Instruction) (is : List Instruction) (q : Replacement)
      (rest : Rewritten (List Instruction))
      → All (IsBelow n) (i ∷ is)
      → ((s : State W) → Replaces n s i q)
      → State W
      → IsPreserved q.next is rest
      → IsPreserved n (i ∷ is) (record {
        changed = true;
        code = q.code ++ (new_inst i q ∷ rest.code);
        next = rest.next;
        subst_count = rest.subst_count + 1;
      })
  unfolding exec
  IsPreserved-cons_replaced n i is q rest b h s0 tail =
      let h0 = h s0 in
      record {
        grows = omega (arith, tail.grows, h0.grows);
        code_below =
            All-append (IsBelow rest.next) q.code _
              (All-IsBelow_mono q.next rest.next q.code tail.grows h0.code_below)
              (
                (
                  omega arith,
                  (
                    Below-mono q.next rest.next q.lhs tail.grows h0.lhs_below,
                    (Below-mono q.next rest.next q.rhs tail.grows h0.rhs_below, tt),
                  ),
                ),
                tail.code_below,
              );
        agrees = λ s. rw (exec-append m) (
            Agrees-trans n _ _ _
              (Agrees-weaken n _ _ _ h0.grows
                (tail.agrees (step m (new_inst i q) (exec m q.code s))))
              (exec-Agrees m n is _ _ (step-new_inst n s i q (h s)) b.1));
      }

  pub run_on_basic_block-IsPreserved :
      (p : Rewriter)
      → IsCorrect p
      → State W
      → (n : ℕ) (is : List Instruction) → All (IsBelow n) is
      → IsPreserved n is (run_on_basic_block p n is)
  unfolding run_on_basic_block exec
  run_on_basic_block-IsPreserved p ok s0 n [] b = record {
    grows = omega arith;
    code_below = tt;
    agrees = λ s. Agrees-refl n s;
  }
  run_on_basic_block-IsPreserved p ok s0 n (i ∷ is) b = elim (Option-cases (p.candidate i)) [
    | inl skip ↦
        rw (skip, run_on_basic_block)
          (IsPreserved-cons_kept n i is _ b.0 (run_on_basic_block-IsPreserved p ok s0 n is b.1))
    | inr ((l, r), e) ↦
        let q = p.replacement i.ty l r n in
        let h = λ (s : State W). ok i l r e n s b.0 in
        let g = (h s0).grows in
        rw (e, run_on_basic_block)
          (IsPreserved-cons_replaced n i is q _ b h s0
            (run_on_basic_block-IsPreserved p ok s0 q.next is (All-IsBelow_mono n q.next is g b.1)))
  ]
