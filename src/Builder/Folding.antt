-- ===== src/Builder/Folding.antt =====
-- A builder as LLVM's IRBuilder is by default: an operation on two constants is folded, any other
-- is emitted, and `not` is an exclusive or with all ones. It meets the law, so the law can be met.
use Prim.Native.Nat.{bit_xor}
use native.Mathlib.Nat.{one-le-pow, mod-lt, mod-eq_of_lt}
use mathlib.Core.Path.{subst}
use llvm_tutor.Prelude.{ℕ, ◌+◌, ◌-◌, ◌%◌, ◌^◌, ◌≡◌, refl, ap, Option, none, some, [], ◌∷◌, arith}
use llvm_tutor.Prelude.Bits.{bit_xor_ones}
use llvm_tutor.Ir.{
  Value, instruction, constant_int, Ty, int_ty, BinaryOp, add, sub, mul, and, or, xor, fsub,
  other_binary, binary,
}
use llvm_tutor.Machine.Exec.{Machine, State, value_of, integer_result, result, update, step, exec}
use llvm_tutor.Machine.Agreement.{Below-mono, Agrees-refl}
use llvm_tutor.Builder.{Build, IrBuilder, Holds, Yields, IsSound}

abbrev pub emit : BinaryOp → Ty → Value → Value → Build
emit op ty l r n = record {
  value = instruction n;
  code = record { id = n; opcode = binary op; ty = ty; operands = l ∷ r ∷ [] } ∷ [];
  next = n + 1;
}

abbrev pub fold : BinaryOp → Ty → Value → Value → Option Value
fold op (int_ty w) (constant_int u a) (constant_int v b) =
    elim (integer_result op w (a % 2 ^ u) (b % 2 ^ v)) [
      | none ↦ none
      | some z ↦ some (constant_int w z)
    ]
fold op ty l r = none

abbrev pub create : BinaryOp → Ty → Value → Value → Build
create op ty l r n = elim (fold op ty l r) [
  | none ↦ emit op ty l r n
  | some v ↦ record { value = v; code = []; next = n }
]

abbrev pub all_ones : Ty → Value
all_ones (int_ty w) = constant_int w (2 ^ w - 1)
all_ones ty = constant_int 0 0

abbrev pub folding_builder : IrBuilder
folding_builder = record { create = create; create_not = λ ty v. create xor ty v (all_ones ty) }

some_mod : (t w z : ℕ) → some (t % 2 ^ w) ≡ some z → z % 2 ^ w ≡ z
some_mod t w z h =
    let e : t % 2 ^ w ≡ z = cc in
    subst (λ k. k % 2 ^ w ≡ k) e (mod-eq_of_lt (mod-lt t (one-le-pow w 2 (omega arith))))

integer_result_small :
    (op : BinaryOp) (w x y z : ℕ) → integer_result op w x y ≡ some z → z % 2 ^ w ≡ z
integer_result_small add w x y z h = some_mod _ w z h
integer_result_small sub w x y z h = some_mod _ w z h
integer_result_small mul w x y z h = some_mod _ w z h
integer_result_small and w x y z h = some_mod _ w z h
integer_result_small or w x y z h = some_mod _ w z h
integer_result_small xor w x y z h = some_mod _ w z h
integer_result_small fsub w x y z h = cc
integer_result_small (other_binary k) w x y z h = cc

module _ {W : Type 0} (m : Machine W) where
  result-some :
      (op : BinaryOp) (w x y z : ℕ) (s : W)
      → integer_result op w x y ≡ some z
      → result m (binary op) (int_ty w) (x ∷ y ∷ []) s ≡ (z, s)
  result-some op w x y z s e = ground arith

  exec-emit :
      (op : BinaryOp) (w : ℕ) (l r : Value) (n z : ℕ) (s : State W)
      → integer_result op w (value_of m s.regs l) (value_of m s.regs r) ≡ some z
      → exec m (emit op (int_ty w) l r n).code s
        ≡ record { regs = update s.regs n z; world = s.world }
  unfolding exec step
  exec-emit op w l r n z s e =
      let out = result-some op w (value_of m s.regs l) (value_of m s.regs r) z s.world e in
      ap {B = State W} (λ o. record { regs = update s.regs n o.0; world = o.1 }) out

  emit-Yields :
      (op : BinaryOp) (w : ℕ) {l r : Value} {n x y z : ℕ} {s : State W}
      → integer_result op w x y ≡ some z
      → Holds m n s l x
      → Holds m n s r y
      → Yields m n s (emit op (int_ty w) l r) z
  emit-Yields op w {l} {r} {n} {x} {y} {z} {s} e hl hr =
      let found : integer_result op w (value_of m s.regs l) (value_of m s.regs r) ≡ some z =
        rw (hl.equals, hr.equals) e in
      let run = exec-emit op w l r n z s found in
      record {
        later = record {
          grows = omega arith;
          keeps = rw run record { registers = λ i h. ground arith; same_world = refl };
        };
        code_below = (
          (
            omega arith,
            (
              Below-mono n (n + 1) l (omega arith) hl.exists,
              (Below-mono n (n + 1) r (omega arith) hr.exists, tt),
            ),
          ),
          tt,
        );
        holds = record { exists = omega arith; equals = rw run (ground arith) };
      }

  folded-Yields :
      (b : Build) (w z n : ℕ) (s : State W)
      → b n ≡ record { value = constant_int w z; code = []; next = n }
      → z % 2 ^ w ≡ z
      → Yields m n s b z
  unfolding exec
  folded-Yields b w z n s e small = record {
    later = rw e record { grows = omega arith; keeps = Agrees-refl n s };
    code_below = rw e tt;
    holds = rw e record { exists = tt; equals = small };
  }

  create-Yields :
      (op : BinaryOp) (w : ℕ) (l r : Value) (n x y z : ℕ) (s : State W)
      → integer_result op w x y ≡ some z
      → Holds m n s l x
      → Holds m n s r y
      → Yields m n s (create op (int_ty w) l r) z
  create-Yields op w (constant_int u a) (constant_int v b) n x y z s e hl hr =
      let found : integer_result op w (a % 2 ^ u) (b % 2 ^ v) ≡ some z =
        rw (hl.equals, hr.equals) e in
      folded-Yields (create op (int_ty w) (constant_int u a) (constant_int v b)) w z n s
        (ground (arith, found)) (integer_result_small op w x y z e)
  create-Yields op w _ _ n x y z s e hl hr = emit-Yields op w e hl hr

  not_ones : (w x : ℕ) → bit_xor x ((2 ^ w - 1) % 2 ^ w) % 2 ^ w ≡ 2 ^ w - 1 - x % 2 ^ w
  not_ones w x =
      let pos = one-le-pow w 2 (omega arith) in
      rw (mod-eq_of_lt {n = 2 ^ w - 1} {m = 2 ^ w} (omega arith)) (bit_xor_ones w x)

  pub folding_builder-IsSound : IsSound m folding_builder
  folding_builder-IsSound = record {
    create_law =
        λ op w {l} {r} {n} {x} {y} {z} {s} e hl hr. create-Yields op w l r n x y z s e hl hr;
    create_not_law = λ w {v} {n} {x} {s} h. rw (← not_ones w x) (
        create-Yields xor w v (constant_int w (2 ^ w - 1)) n x _ _ s refl h
          (record { exists = tt; equals = refl }));
  }
