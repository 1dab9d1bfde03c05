-- ===== src/Mba/Sub/Correct.antt =====
-- The replacement of MBASub computes the difference, for every width and every builder that does
-- what LLVM documents.
use mathlib.Core.Path.{subst}
use native.Mathlib.Nat.{one-le-pow, mod-lt, add-mod}
use llvm_tutor.Prelude.{
  List, ℕ, ◌+◌, ◌-◌, ◌%◌, ◌^◌, ◌<◌, ◌≡◌, refl, sym, ap, ◌∙◌, true, some, [], ◌∷◌, arith,
  Option-cases, inl, inr, All,
}
use llvm_tutor.Ir.{
  Value, Ty, int_ty, is_integer_ty, BinaryOp, add, sub, binary, Instruction, BasicBlock,
}
use llvm_tutor.Machine.Exec.{Machine, State, value_of}
use llvm_tutor.Machine.Agreement.{Below}
use llvm_tutor.Builder.{IrBuilder, IsSound, Holds, Yields, Yields-bind, keep}
use llvm_tutor.Mba.Rewrite.{run, binary_operands}
use llvm_tutor.Machine.Function.{exec_function, ResultAgrees}
use llvm_tutor.Mba.Rewrite.Program.{AreBelow, run-preserves}
use llvm_tutor.Mba.Rewrite.Preserve.{binary_operands-eq-some, IsCorrect}
use llvm_tutor.Mba.Sub.{is_sub, mba_sub_candidate, mba_sub_sum, mba_sub_replacement, mba_sub}

-- The identity behind the pass, modulo p = 2 ^ w.
mba_sub_identity :
    (p a b : ℕ) → 0 < p → ((a + (p - 1 - b % p)) % p + 1 % p) % p ≡ (a + (p - b % p)) % p
mba_sub_identity p a b pos =
    sym (add-mod (a + (p - 1 - b % p)) 1 p) ∙ ap (λ (t : ℕ). t % p) (omega (arith, mod-lt b pos))

is_integer_ty-eq : (t : Ty) → is_integer_ty t ≡ true → (w : ℕ) × (t ≡ int_ty w)
is_integer_ty-eq (int_ty w) h = (w, refl)
is_integer_ty-eq _ h = cc

is_sub-eq : (op : BinaryOp) → is_sub op ≡ true → op ≡ sub
is_sub-eq sub h = refl
is_sub-eq _ h = cc

-- What MBASub chooses is an integer subtraction.
candidate_inversion :
    (i : Instruction) (l r : Value)
    → mba_sub_candidate i ≡ some (l, r)
    → (i.opcode ≡ binary sub) × (i.operands ≡ l ∷ r ∷ []) × (is_integer_ty i.ty ≡ true)
unfolding mba_sub_candidate
candidate_inversion i l r h = elim (Option-cases (binary_operands i.opcode i.operands)) [
  | inl other ↦ absurd (ground arith)
  | inr ((op, x, y), e) ↦
      ground (arith, binary_operands-eq-some i.opcode i.operands op x y e, is_sub-eq op)
]

module _ {W : Type 0} (m : Machine W) (b : IrBuilder) (law : IsSound m b) where
  open law use {create_law, create_not_law}

  mba_sub_sum-Yields :
      (w : ℕ) {l r : Value} {n x y : ℕ} {s : State W}
      → Holds m n s l x
      → Holds m n s r y
      → Yields m n s (mba_sub_sum b (int_ty w) l r) ((x + (2 ^ w - 1 - y % 2 ^ w)) % 2 ^ w)
  unfolding mba_sub_sum
  mba_sub_sum-Yields w hl hr =
      Yields-bind m (create_not_law w hr) λ c n1 s1 l1 hc. create_law add w refl (keep m l1 hl) hc

  -- Every replacement of MBASub computes what the subtraction did.
  pub mba_sub-IsCorrect : IsCorrect m (mba_sub b)
  unfolding mba_sub_replacement
  mba_sub-IsCorrect i l r chosen n s below =
      let (op, ops, int) = candidate_inversion i l r chosen in
      let (w, ty) = is_integer_ty-eq i.ty int in
      let bounds : All (Below n) (l ∷ r ∷ []) = subst (All (Below n)) ops below.1 in
      let hl : Holds m n s l (value_of m s.regs l) = record { exists = bounds.0; equals = refl } in
      let hr : Holds m n s r (value_of m s.regs r) = record {
        exists = bounds.1.0;
        equals = refl;
      } in
      let sum = mba_sub_sum-Yields w hl hr in
      let same =
        mba_sub_identity (2 ^ w) (value_of m s.regs l) (value_of m s.regs r)
          (one-le-pow w 2 (omega arith)) in
      rw ty record {
        grows = sum.later.grows;
        code_below = sum.code_below;
        lhs_below = sum.holds.exists;
        rhs_below = tt;
        keeps = sum.later.keeps;
        same = rw (op, ops, sum.holds.equals, sum.later.keeps.same_world, same);
      }

  -- MBASub keeps the meaning of a function: from any state, with any fuel and from any block, the
  -- rewritten function leaves when the original does, in the same world and with the same values
  -- below n. The function may use only values below n, and new instructions take identities from n
  -- on; the builder obeys LLVM's documentation. Subtractions of every width are covered.
  pub mba_sub-preserves :
      (n : ℕ) (bs : List BasicBlock)
      → AreBelow n bs
      → (fuel l : ℕ) (s : State W)
      → ResultAgrees n
          (exec_function m fuel (run (mba_sub b) n bs).0 l s)
          (exec_function m fuel bs l s)
  mba_sub-preserves n bs below fuel l s =
      run-preserves m (mba_sub b) mba_sub-IsCorrect s n bs below fuel l
