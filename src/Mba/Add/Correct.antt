-- ===== src/Mba/Add/Correct.antt =====
-- The replacement of MBAAdd computes the sum, for every builder that does what LLVM documents.
use Prim.Native.Nat.{bit_and, bit_xor}
use llvm_tutor.Prelude.{
  List, ℕ, ◌+◌, ◌*◌, ◌%◌, ◌≡◌, refl, Bool, true, false, some, [], ◌∷◌, arith, Option-cases, inl,
  inr, All,
}
use mathlib.Core.Path.{subst}
use llvm_tutor.Prelude.Bits.{bit_xor-add-bit_and}
use llvm_tutor.Ir.{Value, Ty, int_ty, BinaryOp, add, mul, and, xor, binary, Instruction, BasicBlock}
use llvm_tutor.Machine.Exec.{Machine, State, value_of}
use llvm_tutor.Machine.Agreement.{Below}
use llvm_tutor.Builder.{IrBuilder, IsSound, Holds, Yields, Yields-bind, keep}
use llvm_tutor.Mba.Rewrite.{run, binary_operands}
use llvm_tutor.Machine.Function.{exec_function, ResultAgrees}
use llvm_tutor.Mba.Rewrite.Program.{AreBelow, run-preserves}
use llvm_tutor.Mba.Rewrite.Preserve.{binary_operands-eq-some, IsCorrect}
use llvm_tutor.Mba.Add.{
  mba_add_candidate, mba_add_sum, mba_add_e5, mba_add_replacement, mba_add, const_of, is_add, is_i8,
}

-- The identity behind the pass, with the wrap-around of each i8 operation.
mba_identity :
    (a b : ℕ)
    → (111
          + 151
            * ((23 + 39 * ((bit_xor a b % 256 + 2 * (bit_and a b % 256) % 256) % 256) % 256) % 256)
            % 256)
        % 256
      ≡ (a + b) % 256
mba_identity a b = omega (arith, bit_xor-add-bit_and a b)

module _ {W : Type 0} (m : Machine W) where
  const_holds : (k : ℕ) {n : ℕ} {s : State W} → Holds m n s (const_of (int_ty 8) k) (k % 256)
  const_holds k = record { exists = tt; equals = refl }

module _ {W : Type 0} (m : Machine W) (b : IrBuilder) (law : IsSound m b) where
  open law use {create_law}

  mba_add_sum-Yields :
      (xor_first : Bool) {l r : Value} {n x y : ℕ} {s : State W}
      → Holds m n s l x
      → Holds m n s r y
      → Yields m n s
          (mba_add_sum b xor_first (int_ty 8) l r)
          ((bit_xor x y % 256 + 2 * (bit_and x y % 256) % 256) % 256)
  unfolding mba_add_sum
  mba_add_sum-Yields true hl hr = Yields-bind m (create_law xor 8 refl hl hr) λ e0 n1 s1 l1 h0.
      Yields-bind m (create_law and 8 refl (keep m l1 hl) (keep m l1 hr)) λ c n2 s2 l2 hc.
        Yields-bind m (create_law mul 8 refl (const_holds m 2) hc)
          λ e1 n3 s3 l3 h1. create_law add 8 refl (keep m l3 (keep m l2 h0)) h1
  mba_add_sum-Yields false hl hr = Yields-bind m (create_law and 8 refl hl hr) λ c n1 s1 l1 hc.
      Yields-bind m (create_law mul 8 refl (const_holds m 2) hc) λ e1 n2 s2 l2 h1.
        Yields-bind m (create_law xor 8 refl (keep m l2 (keep m l1 hl)) (keep m l2 (keep m l1 hr)))
          λ e0 n3 s3 l3 h0. create_law add 8 refl h0 (keep m l3 h1)

  mba_add_e5-Yields :
      (xor_first : Bool) {l r : Value} {n x y : ℕ} {s : State W}
      → Holds m n s l x
      → Holds m n s r y
      → Yields m n s (mba_add_e5 b xor_first (int_ty 8) l r) (
          151
          * ((23 + 39 * ((bit_xor x y % 256 + 2 * (bit_and x y % 256) % 256) % 256) % 256) % 256)
          % 256)
  unfolding mba_add_e5
  mba_add_e5-Yields xor_first hl hr =
      Yields-bind m (mba_add_sum-Yields xor_first hl hr) λ e2 n2 s2 l2 h2.
        Yields-bind m (create_law mul 8 refl (const_holds m 39) h2) λ e3 n3 s3 l3 h3.
          Yields-bind m (create_law add 8 refl (const_holds m 23) h3)
            λ e4 n4 s4 l4 h4. create_law mul 8 refl (const_holds m 151) h4

is_i8-eq : (t : Ty) → is_i8 t ≡ true → t ≡ int_ty 8
is_i8-eq (int_ty w) h = ground arith
is_i8-eq _ h = ground arith

is_add-eq : (op : BinaryOp) → is_add op ≡ true → op ≡ add
is_add-eq add h = refl
is_add-eq _ h = cc

-- What MBAAdd chooses is an i8 addition.
candidate_inversion :
    (i : Instruction) (l r : Value)
    → mba_add_candidate i ≡ some (l, r)
    → (i.opcode ≡ binary add) × (i.ty ≡ int_ty 8) × (i.operands ≡ l ∷ r ∷ [])
unfolding mba_add_candidate
candidate_inversion i l r h = elim (Option-cases (binary_operands i.opcode i.operands)) [
  | inl other ↦ absurd (ground arith)
  | inr ((op, x, y), e) ↦
      ground
        (arith, binary_operands-eq-some i.opcode i.operands op x y e, is_i8-eq i.ty, is_add-eq op)
]

module _ {W : Type 0} (m : Machine W) (b : IrBuilder) (law : IsSound m b) (xor_first : Bool) where
  -- Every replacement of MBAAdd computes what the addition did.
  pub mba_add-IsCorrect : IsCorrect m (mba_add b xor_first)
  unfolding mba_add_replacement
  mba_add-IsCorrect i l r chosen n s below =
      let (op, ty, ops) = candidate_inversion i l r chosen in
      let bounds : All (Below n) (l ∷ r ∷ []) = subst (All (Below n)) ops below.1 in
      let hl : Holds m n s l (value_of m s.regs l) = record { exists = bounds.0; equals = refl } in
      let hr : Holds m n s r (value_of m s.regs r) = record {
        exists = bounds.1.0;
        equals = refl;
      } in
      let e5 = mba_add_e5-Yields m b law xor_first hl hr in
      let sum = mba_identity (value_of m s.regs l) (value_of m s.regs r) in
      rw ty record {
        grows = e5.later.grows;
        code_below = e5.code_below;
        lhs_below = tt;
        rhs_below = e5.holds.exists;
        keeps = e5.later.keeps;
        same = rw (op, ops, e5.holds.equals, e5.later.keeps.same_world, sum);
      }

  -- MBAAdd keeps the meaning of a function: from any state, with any fuel and from any block, the
  -- rewritten function leaves when the original does, in the same world and with the same values
  -- below n. The function may use only values below n, and new instructions take identities from n
  -- on; the builder obeys LLVM's documentation; either order of evaluation is covered.
  pub mba_add-preserves :
      (n : ℕ) (bs : List BasicBlock)
      → AreBelow n bs
      → (fuel l : ℕ) (s : State W)
      → ResultAgrees n
          (exec_function m fuel (run (mba_add b xor_first) n bs).0 l s)
          (exec_function m fuel bs l s)
  mba_add-preserves n bs below fuel l s =
      run-preserves m (mba_add b xor_first) mba_add-IsCorrect s n bs below fuel l
