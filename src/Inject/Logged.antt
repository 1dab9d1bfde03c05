-- ===== src/Inject/Logged.antt =====
-- loggingReturn: what stands before the returns.
use Prim.Native.String.{String}
use llvm_tutor.Prelude.{
  ℕ, ◌+◌, ◌==◌, ◌≡◌, refl, false, arith, ◌⊎◌, inl, inr, Option, none, some, List, [], ◌∷◌, All,
  Bool-cases,
}
use llvm_tutor.Ir.{
  Value, argument, global, function, constant_int, call_base, ret, Ty, int_ty, void_ty, double_ty,
  other_ty, Instruction, BasicBlock, Function, GlobalVariable, Module,
}
use llvm_tutor.Inject.{
  hello_format, return_format, create_global_string, string_global, get_or_insert_printf,
  say_hello_all, arg0, is_return, log_block, log_blocks, log_functions, run_on_module,
}

-- In a list of instructions after `before`, each return has a call of printf with the format and v
-- directly before it.
abbrev pub IsLogged : (printf format : ℕ) → Value → Option Instruction → List Instruction → Type 0
IsLogged printf format v before [] = Unit
IsLogged printf format v before (i ∷ is) =
    ((i.opcode ≡ ret → ⊥)
      ⊎ ((id : ℕ) × (name : ℕ) × (before
            ≡ some (record {
              id = id;
              opcode = call_base (some printf) false;
              ty = int_ty 32;
              operands = global format ∷ global name ∷ v ∷ function printf ∷ [];
            }))))
    × IsLogged printf format v (some i) is

-- The value that is passed on: the first argument of a function whose first parameter is an i32, and
-- the constant 0 of any other function.
pub data IsPassedOn : List Ty → Value → Type 0 where
  first_i32 : (ts : List Ty) → IsPassedOn (int_ty 32 ∷ ts) (argument 0)
  no_argument : IsPassedOn [] (constant_int 32 0)
  other_first :
      (t : Ty) (ts : List Ty) → (t ≡ int_ty 32 → ⊥) → IsPassedOn (t ∷ ts) (constant_int 32 0)

abbrev pub AreLogged : (printf format : ℕ) → List Function → Type 0
AreLogged printf format fs =
    All
      (λ f.
        (v : Value) × IsPassedOn f.args v
        × All (λ b. IsLogged printf format v none b.instructions) f.blocks)
      fs

arg0-IsPassedOn : (ts : List Ty) → IsPassedOn ts (arg0 ts)
arg0-IsPassedOn [] = no_argument
arg0-IsPassedOn (void_ty ∷ ts) = other_first void_ty ts (λ h. ground (arith, h))
arg0-IsPassedOn (double_ty ∷ ts) = other_first double_ty ts (λ h. ground (arith, h))
arg0-IsPassedOn (other_ty k ∷ ts) = other_first (other_ty k) ts (λ h. ground (arith, h))
arg0-IsPassedOn (int_ty w ∷ ts) = elim (Bool-cases (w == 32)) [
  | inl e ↦ let same : w ≡ 32 = ground (arith, e) in rw same (first_i32 ts)
  | inr e ↦ rw e (other_first (int_ty w) ts (λ h. ground (arith, e, h)))
]

module _ (printf format : ℕ) where
  log_block-IsLogged :
      (name : String) (v : Value) (before : Option Instruction) (is : List Instruction)
      (gs : List GlobalVariable) (n : ℕ)
      → IsLogged printf format v before (log_block printf format name v is gs n).now
  unfolding log_block
  log_block-IsLogged name v before [] gs n = _
  log_block-IsLogged name v before (i ∷ is) gs n =
      let s = create_global_string name gs in
      elim (Bool-cases (is_return i.opcode)) [
        | inl r ↦
            rw (r, log_block)
              (
                inl (λ e. ground (arith, e)),
                (inr (n, s.value, refl), log_block-IsLogged name v (some i) is s.globals (n + 1)),
              )
        | inr r ↦
            rw (r, log_block)
              (inl (λ e. ground (arith, r, e)), log_block-IsLogged name v (some i) is gs n)
      ]

  log_blocks-IsLogged :
      (name : String) (v : Value) (bs : List BasicBlock) (gs : List GlobalVariable) (n : ℕ)
      → All
          (λ b. IsLogged printf format v none b.instructions)
          (log_blocks printf format name v bs gs n).now
  unfolding log_blocks
  log_blocks-IsLogged name v [] gs n = _
  log_blocks-IsLogged name v (b ∷ bs) gs n =
      (log_block-IsLogged name v none b.instructions gs n, log_blocks-IsLogged name v bs _ _)

  log_functions-AreLogged :
      (fs : List Function) (gs : List GlobalVariable) (n : ℕ)
      → AreLogged printf format (log_functions printf format fs gs n).now
  unfolding log_functions
  log_functions-AreLogged [] gs n = _
  log_functions-AreLogged (f ∷ fs) gs n = (
    (arg0 f.args, arg0-IsPassedOn f.args, log_blocks-IsLogged f.name (arg0 f.args) f.blocks gs n),
    log_functions-AreLogged fs _ _,
  )

-- After the pass, a call of printf with one format string stands directly before every return of
-- every function, and passes the first argument if it is an i32, and 0 otherwise.
pub run_on_module-AreLogged :
    (new_id n : ℕ) (m : Module)
    → (format : ℕ) × AreLogged
        (get_or_insert_printf new_id m.functions).0
        format
        (run_on_module new_id n m).output.functions
unfolding run_on_module
run_on_module-AreLogged new_id n m =
    let printf = get_or_insert_printf new_id m.functions in
    let hello = string_global "PrintfFormatStr" hello_format m.globals in
    let step3 = say_hello_all printf.0 hello.value printf.1 hello.globals n in
    let home = string_global "HomeWorkFormatStr" return_format step3.globals in
    (home.value, log_functions-AreLogged printf.0 home.value step3.now home.globals step3.next)
