-- ===== src/Fcmp.antt =====
-- lib/FindFCmpEq.cpp and lib/ConvertFCmpEq.cpp: the equality comparisons of floating-point numbers in
-- a function, and their conversion to comparisons of the distance with an epsilon.
pub mod Predicates
pub mod Attempt
pub mod Correct
pub mod Printer
pub mod Pass
mod Tests
use llvm_tutor.Prelude.{
  ℕ, ◌+◌, ◌==◌, ◌||◌, ◌≡◌, Bool, true, false, Option, none, some, List, [], ◌∷◌, ◌++◌,
  if◌then◌else◌,
}
use llvm_tutor.Ir.{
  Value, constant_int, Ty, int_ty, double_ty, Predicate, fcmp_oeq, fcmp_oge, fcmp_olt, fcmp_one,
  fcmp_ueq, fcmp_uge, fcmp_ult, fcmp_une, Opcode, fcmp, Instruction, BasicBlock, PreservedAnalyses,
}
use llvm_tutor.Builder.{Emit, Build, ◌>>=◌}

-- FCmpInst::isEquality.
unfoldable pub is_equality : Predicate → Bool
is_equality fcmp_oeq = true
is_equality fcmp_one = true
is_equality fcmp_ueq = true
is_equality fcmp_une = true
is_equality _ = false

abbrev pub is_fcmp_eq : Opcode → Bool
is_fcmp_eq (fcmp p) = is_equality p
is_fcmp_eq _ = false

-- FindFCmpEq::run: the identities of the comparisons found, in order.
unfoldable pub find_in_block : List Instruction → List ℕ
find_in_block [] = []
find_in_block (i ∷ is) =
    let rest = find_in_block is in if is_fcmp_eq i.opcode then i.id ∷ rest else rest

unfoldable pub find_fcmp_eq : List BasicBlock → List ℕ
find_fcmp_eq [] = []
find_fcmp_eq (b ∷ bs) = find_in_block b.instructions ++ find_fcmp_eq bs

-- The switch that chooses the new predicate; none where it is unreachable.
unfoldable pub convert_predicate : Predicate → Option Predicate
convert_predicate fcmp_oeq = some fcmp_olt
convert_predicate fcmp_ueq = some fcmp_ult
convert_predicate fcmp_one = some fcmp_oge
convert_predicate fcmp_une = some fcmp_uge
convert_predicate _ = none

-- What LLVM implements: three operations of IRBuilder, and ConstantFP of a double given by its bits.
pub record FcmpBuilder : Type 0 where
  pub create_fsub : Value → Value → Build
  pub create_bit_cast : Value → Ty → Build
  pub create_and : Value → Value → Build
  pub constant_fp : ℕ → Value

-- ~(1L << 63), and the bits of the machine epsilon.
abbrev pub sign_mask : Value
sign_mask = constant_int 64 0x7fffffffffffffff

abbrev pub epsilon_bits : ℕ
epsilon_bits = 0x3CB0000000000000

-- What the conversion of one instruction leaves: the code inserted before it and the new operand
-- and predicate of the instruction itself.
pub record Converted : Type 0 where
  pub code : List Instruction
  pub inst : Instruction
  pub next : ℕ

-- What a walk over the function has changed so far.
pub record Conversion (A : Type 0) : Type 0 where
  pub now : A
  pub next : ℕ
  pub converted : Bool

pub record FcmpRun : Type 0 where
  pub blocks : List BasicBlock
  pub next : ℕ
  pub modified : Bool
  pub conversion_count : ℕ

module _ (builder : FcmpBuilder) where
  -- |LHS - RHS|: the sign bit of the difference is cleared.
  unfoldable pub abs_difference : Value → Value → Build
  abs_difference lhs rhs = builder.create_fsub lhs rhs >>= λ fsub_inst.
      builder.create_bit_cast fsub_inst (int_ty 64) >>= λ cast_to_i64.
      builder.create_and cast_to_i64 sign_mask >>= λ abs_value.
      builder.create_bit_cast abs_value double_ty

  unfoldable pub convert_operands : Instruction → Predicate → List Value → ℕ → Option Converted
  convert_operands i q (lhs ∷ rhs ∷ []) n =
      let e = abs_difference lhs rhs n in
      some (record {
        code = e.code;
        inst = record i {
          opcode = fcmp q;
          operands = e.value ∷ builder.constant_fp epsilon_bits ∷ [];
        };
        next = e.next;
      })
  convert_operands i q _ n = none

  -- convertFCmpEqInstruction; none for the null pointer it returns.
  unfoldable pub convert_fcmp_eq_instruction : Instruction → ℕ → Option Converted
  convert_fcmp_eq_instruction i n = elim i.opcode [
    | fcmp p ↦ elim (convert_predicate p) [
      | none ↦ none
      | some q ↦ convert_operands i q i.operands n
    ]
    | _ ↦ none
  ]

  -- The instruction with that identity is converted where it stands.
  unfoldable pub convert_in_block : ℕ → List Instruction → ℕ → Conversion (List Instruction)
  convert_in_block x [] n = record { now = []; next = n; converted = false }
  convert_in_block x (i ∷ is) n =
      let found = if i.id == x then convert_fcmp_eq_instruction i n else none in
      elim found [
        | none ↦ let rest = convert_in_block x is n in record rest { now = i ∷ rest.now }
        | some c ↦
            let rest = convert_in_block x is c.next in
            record { now = c.code ++ (c.inst ∷ rest.now); next = rest.next; converted = true }
      ]

  unfoldable pub convert_in_blocks : ℕ → List BasicBlock → ℕ → Conversion (List BasicBlock)
  convert_in_blocks x [] n = record { now = []; next = n; converted = false }
  convert_in_blocks x (b ∷ bs) n =
      let here = convert_in_block x b.instructions n in
      let rest = convert_in_blocks x bs here.next in
      record {
        now = record b { instructions = here.now } ∷ rest.now;
        next = rest.next;
        converted = here.converted || rest.converted;
      }

  -- The loop over the comparisons found.
  unfoldable pub convert_all : List ℕ → List BasicBlock → ℕ → FcmpRun
  convert_all [] bs n = record { blocks = bs; next = n; modified = false; conversion_count = 0 }
  convert_all (x ∷ xs) bs n =
      let here = convert_in_blocks x bs n in
      let rest = convert_all xs here.now here.next in
      record rest {
        modified = here.converted || rest.modified;
        conversion_count =
            if here.converted then rest.conversion_count + 1 else rest.conversion_count;
      }

  -- ConvertFCmpEq::run(Func, Comparisons).
  unfoldable pub convert_run : Bool → List ℕ → List BasicBlock → ℕ → FcmpRun
  convert_run opt_none comparisons bs n =
      if opt_none
      then record { blocks = bs; next = n; modified = false; conversion_count = 0 }
      else convert_all comparisons bs n

  -- ConvertFCmpEq::run(Func, FAM): FindFCmpEq's result is the analysis manager's.
  unfoldable pub convert_pass : Bool → List BasicBlock → ℕ → FcmpRun × PreservedAnalyses
  convert_pass opt_none bs n =
      let out = convert_run opt_none (find_fcmp_eq bs) bs n in
      (
        out,
        if out.modified then PreservedAnalyses.none_preserved else PreservedAnalyses.all_preserved,
      )
