-- ===== src/Fcmp/Attempt.antt =====
-- What one conversion by ConvertFCmpEq leaves, or why there is none.
use llvm_tutor.Prelude.{
  ℕ, ◌≡◌, refl, ◌∙◌, Bool, true, false, not, ◌&&◌, Option, none, some, List, [], ◌∷◌, All,
  All-append, arith,
}
use llvm_tutor.Prelude.Containers.{nat_eq}
use llvm_tutor.Ir.{Value, Ty, int_ty, double_ty, Predicate, Opcode, fcmp, Instruction}
use llvm_tutor.Builder.{Build, ◌>>=◌}
use llvm_tutor.Fcmp.{
  is_fcmp_eq, convert_predicate, FcmpBuilder, sign_mask, epsilon_bits, Converted, abs_difference,
  convert_operands, convert_fcmp_eq_instruction,
}
use llvm_tutor.Fcmp.Predicates.{is_equality-convert_predicate, is_equality-converted}

abbrev pub IsNoFcmpEq : Instruction → Type 0
IsNoFcmpEq i = is_fcmp_eq i.opcode ≡ false

-- The code that is built compares nothing for equality.
pub record Quiet (b : Build) : Type 0 where
  pub code : (n : ℕ) → All IsNoFcmpEq (b n).code

-- IRBuilder subtracts, casts and masks without comparing.
pub record IsQuiet (builder : FcmpBuilder) : Type 0 where
  pub fsub : (l r : Value) → Quiet (builder.create_fsub l r)
  pub bit_cast : (v : Value) (t : Ty) → Quiet (builder.create_bit_cast v t)
  pub mask : (l r : Value) → Quiet (builder.create_and l r)

-- Every comparison has its two operands.
abbrev pub has_two : List Value → Bool
has_two (v ∷ w ∷ []) = true
has_two _ = false

abbrev pub IsFormed : Instruction → Type 0
IsFormed i = (is_fcmp_eq i.opcode && not (has_two i.operands)) ≡ false

pub IsFormed-All : (is : List Instruction) → All IsNoFcmpEq is → All IsFormed is
IsFormed-All [] a = _
IsFormed-All (i ∷ is) (a, more) = (ground (arith, a), IsFormed-All is more)

Quiet-bind :
    {b : Build} {k : Value → Build} → Quiet b → ((v : Value) → Quiet (k v)) → Quiet (b >>= k)
unfolding ◌>>=◌
Quiet-bind {b} {k} here later = record {
  code =
      λ n. All-append IsNoFcmpEq (b n).code _ (here.code n) ((later (b n).value).code (b n).next);
}

-- A conversion that happened has left no equality comparison.
pub record IsDone (c : Converted) : Type 0 where
  pub code : All IsNoFcmpEq c.code
  pub inst : IsNoFcmpEq c.inst

module _ (builder : FcmpBuilder) where
  pub data Attempt (i : Instruction) (n : ℕ) : Type 0 where
    no : convert_fcmp_eq_instruction builder i n ≡ none → IsNoFcmpEq i → Attempt i n
    yes :
        (c : Converted)
        → convert_fcmp_eq_instruction builder i n ≡ some c
        → is_fcmp_eq i.opcode ≡ true
        → IsDone c
        → Attempt i n

module _ (builder : FcmpBuilder) (law : IsQuiet builder) where
  abs_difference-Quiet : (lhs rhs : Value) → Quiet (abs_difference builder lhs rhs)
  unfolding abs_difference
  abs_difference-Quiet lhs rhs = Quiet-bind (law.fsub lhs rhs) (λ v.
      Quiet-bind (law.bit_cast v (int_ty 64))
        (λ u. Quiet-bind (law.mask u sign_mask) (λ w. law.bit_cast w double_ty)))

  unfoldable operands_converted : (id n : ℕ) → Predicate → Ty → Value → Value → Converted
  operands_converted id n q ty l r =
      let e = abs_difference builder l r n in
      record {
        code = e.code;
        inst = record {
          id = id;
          opcode = fcmp q;
          ty = ty;
          operands = e.value ∷ builder.constant_fp epsilon_bits ∷ [];
        };
        next = e.next;
      }

  Attempt-operands :
      (id n : ℕ) (p q : Predicate) (ty : Ty) (vs : List Value)
      → convert_predicate p ≡ some q
      → IsFormed (record { id = id; opcode = fcmp p; ty = ty; operands = vs })
      → Attempt builder (record { id = id; opcode = fcmp p; ty = ty; operands = vs }) n
  unfolding convert_fcmp_eq_instruction convert_operands operands_converted
  Attempt-operands id n p q ty (l ∷ r ∷ []) h w =
      yes (operands_converted id n q ty l r) (rw (h, convert_fcmp_eq_instruction) refl)
        (is_equality-convert_predicate p ∙ rw h refl)
        (record { code = (abs_difference-Quiet l r).code n; inst = is_equality-converted p q h })
  Attempt-operands id n p q ty [] h w =
      absurd (ground (arith, is_equality-convert_predicate p, h, w))
  Attempt-operands id n p q ty (l ∷ []) h w =
      absurd (ground (arith, is_equality-convert_predicate p, h, w))
  Attempt-operands id n p q ty (l ∷ r ∷ v ∷ vs) h w =
      absurd (ground (arith, is_equality-convert_predicate p, h, w))

  Attempt-predicate :
      (id n : ℕ) (p : Predicate) (o : Option Predicate) (ty : Ty) (vs : List Value)
      → convert_predicate p ≡ o
      → IsFormed (record { id = id; opcode = fcmp p; ty = ty; operands = vs })
      → Attempt builder (record { id = id; opcode = fcmp p; ty = ty; operands = vs }) n
  unfolding convert_fcmp_eq_instruction
  Attempt-predicate id n p none ty vs h w =
      no (rw (h, convert_fcmp_eq_instruction) refl) (is_equality-convert_predicate p ∙ rw h refl)
  Attempt-predicate id n p (some q) ty vs h w = Attempt-operands id n p q ty vs h w

  Attempt-opcode :
      (id n : ℕ) (op : Opcode) (ty : Ty) (vs : List Value)
      → IsFormed (record { id = id; opcode = op; ty = ty; operands = vs })
      → Attempt builder (record { id = id; opcode = op; ty = ty; operands = vs }) n
  Attempt-opcode id n (fcmp p) ty vs w = Attempt-predicate id n p (convert_predicate p) ty vs refl w
  Attempt-opcode id n _ ty vs w = no (unfold convert_fcmp_eq_instruction in refl) refl

  pub attempt : (i : Instruction) (n : ℕ) → IsFormed i → Attempt builder i n
  attempt i n w = Attempt-opcode i.id n i.opcode i.ty i.operands w
