-- ===== src/Inject.antt =====
-- lib/InjectFuncCall.cpp: calls of printf at the top of every function definition and before every
-- return. Types of pointers and arrays are `other_ty`; attributes, linkage and debug output are left
-- out. A global or function is named by its place or identity; getOrInsertGlobal and
-- getOrInsertFunction look for the name first.
pub mod Erasure
pub mod Erase
pub mod Logged
mod Tests
use Prim.Native.String.{String}
use llvm_tutor.Prelude.{
  ℕ, zero, suc, ◌+◌, ◌==◌, wrap_unsigned, Bool, true, false, ◌||◌, Option, none, some, List, [],
  ◌∷◌, ◌++◌, if◌then◌else◌, length,
}
use llvm_tutor.Prelude.Containers.{string_eq, ◌===◌}
use llvm_tutor.Ir.{
  Value, argument, global, function, constant_int, Ty, int_ty, other_ty, Opcode, call_base, phi,
  ret, landing_pad, Instruction, BasicBlock, Function, Initializer, string_data, GlobalVariable,
  Module, PreservedAnalyses,
}
use llvm_tutor.Ir.Query.{is_phi}

abbrev pub pointer_ty : Ty
pointer_ty = other_ty 0

abbrev pub string_ty : Ty
string_ty = other_ty 1

unfoldable pub global_index : String → List GlobalVariable → Option ℕ
global_index name [] = none
global_index name (g ∷ gs) =
    let rest = global_index name gs in
    if g.name === name then some 0 else elim rest [ none ↦ none | some k ↦ some (k + 1) ]

unfoldable pub set_initializer : ℕ → Initializer → List GlobalVariable → List GlobalVariable
set_initializer k v [] = []
set_initializer zero v (g ∷ gs) = record g { initializer = some v } ∷ gs
set_initializer (suc k) v (g ∷ gs) = g ∷ set_initializer k v gs

-- What a step gives back, and the module's global variables after it.
pub record WithGlobals (A : Type 0) : Type 0 where
  pub value : A
  pub globals : List GlobalVariable

-- getOrInsertGlobal and setInitializer.
unfoldable pub initialized_global : String → Ty → Initializer → List GlobalVariable → WithGlobals ℕ
initialized_global name ty v gs = elim (global_index name gs) [
  | some k ↦ record { value = k; globals = set_initializer k v gs }
  | none ↦ record {
    value = length gs;
    globals = gs ++ (record { name = name; value_ty = ty; initializer = some v } ∷ []);
  }
]

abbrev pub string_global : String → String → List GlobalVariable → WithGlobals ℕ
string_global name s = initialized_global name string_ty (string_data s)

-- Builder.CreateGlobalString: a new unnamed global.
abbrev pub create_global_string : String → List GlobalVariable → WithGlobals ℕ
create_global_string s gs = record {
  value = length gs;
  globals =
      gs ++ (record { name = ""; value_ty = string_ty; initializer = some (string_data s) } ∷ []);
}

unfoldable pub find_function : String → List Function → Option ℕ
find_function name [] = none
find_function name (f ∷ fs) = if f.name === name then some f.id else find_function name fs

abbrev pub printf_declaration : ℕ → Function
printf_declaration id = record {
  id = id;
  name = "printf";
  args = pointer_ty ∷ [];
  blocks = [];
  opt_none = false;
}

-- M.getOrInsertFunction("printf", ...): the function, and the functions of the module then.
unfoldable pub get_or_insert_printf : ℕ → List Function → ℕ × List Function
get_or_insert_printf new_id fs = elim (find_function "printf" fs) [
  | some k ↦ (k, fs)
  | none ↦ (new_id, fs ++ (printf_declaration new_id ∷ []))
]

-- Builder.CreateCall(Printf, {format, name, number}); the callee is the last operand.
abbrev pub printf_call : (id printf format name : ℕ) → Value → Instruction
printf_call id printf format name v = record {
  id = id;
  opcode = call_base (some printf) false;
  ty = int_ty 32;
  operands = global format ∷ global name ∷ v ∷ function printf ∷ [];
}

-- Before getFirstInsertionPt(): after the PHI nodes and a landing pad.
unfoldable pub insert_at_top : Instruction → List Instruction → List Instruction
insert_at_top c [] = c ∷ []
insert_at_top c (i ∷ is) =
    let rest = insert_at_top c is in
    elim i.opcode [ phi ls ↦ i ∷ rest | landing_pad ↦ i ∷ c ∷ is | _ ↦ c ∷ i ∷ is ]

pub record Injected (A : Type 0) : Type 0 where
  pub now : A
  pub globals : List GlobalVariable
  pub next : ℕ

-- loggingReturn: arg0 is the first argument if it is an i32, and 0 otherwise.
abbrev pub arg0 : List Ty → Value
arg0 [] = constant_int 32 0
arg0 (t ∷ ts) = elim t [
  | int_ty w ↦ if w == 32 then argument 0 else constant_int 32 0
  | _ ↦ constant_int 32 0
]

abbrev pub is_return : Opcode → Bool
is_return ret = true
is_return _ = false

module _ (printf format : ℕ) where
  abbrev pub hello_call : Function → ℕ → ℕ → Instruction
  hello_call f n name =
      printf_call n printf format name (constant_int 32 (wrap_unsigned (length f.args)))

  -- A round of STEP 3.
  unfoldable pub say_hello : Function → List GlobalVariable → ℕ → Injected Function
  say_hello f gs n = elim f.blocks [
    | [] ↦ record { now = f; globals = gs; next = n }
    | b ∷ bs ↦
        let name = create_global_string f.name gs in
        let call = hello_call f n name.value in
        record {
          now = record f {
            blocks = record b { instructions = insert_at_top call b.instructions } ∷ bs;
          };
          globals = name.globals;
          next = n + 1;
        }
  ]

  unfoldable pub say_hello_all : List Function → List GlobalVariable → ℕ → Injected (List Function)
  say_hello_all [] gs n = record { now = []; globals = gs; next = n }
  say_hello_all (f ∷ fs) gs n =
      let here = say_hello f gs n in
      let rest = say_hello_all fs here.globals here.next in
      record rest { now = here.now ∷ rest.now }

  unfoldable pub log_block :
      String → Value → List Instruction → List GlobalVariable → ℕ → Injected (List Instruction)
  log_block name v [] gs n = record { now = []; globals = gs; next = n }
  log_block name v (i ∷ is) gs n =
      if is_return i.opcode
      then (let s = create_global_string name gs in
          let rest = log_block name v is s.globals (n + 1) in
          record rest { now = printf_call n printf format s.value v ∷ i ∷ rest.now })
      else (let rest = log_block name v is gs n in record rest { now = i ∷ rest.now })

  unfoldable pub log_blocks :
      String → Value → List BasicBlock → List GlobalVariable → ℕ → Injected (List BasicBlock)
  log_blocks name v [] gs n = record { now = []; globals = gs; next = n }
  log_blocks name v (b ∷ bs) gs n =
      let here = log_block name v b.instructions gs n in
      let rest = log_blocks name v bs here.globals here.next in
      record rest { now = record b { instructions = here.now } ∷ rest.now }

  unfoldable pub log_functions : List Function → List GlobalVariable → ℕ → Injected (List Function)
  log_functions [] gs n = record { now = []; globals = gs; next = n }
  log_functions (f ∷ fs) gs n =
      let here = log_blocks f.name (arg0 f.args) f.blocks gs n in
      let rest = log_functions fs here.globals here.next in
      record rest { now = record f { blocks = here.now } ∷ rest.now }

unfoldable pub has_definition : List Function → Bool
has_definition [] = false
has_definition (f ∷ fs) = elim f.blocks [ [] ↦ has_definition fs | b ∷ bs ↦ true ]

abbrev pub hello_format : String
hello_format = "(llvm-tutor) Hello from: %s\n(llvm-tutor)   number of arguments: %d\n"

abbrev pub return_format : String
return_format = "(llvm-tutor) Returning from: %s\n (llvm-tutor)  first arg if int: %d\n"

pub record InjectRun : Type 0 where
  pub output : Module
  pub changed : Bool

-- runOnModule, with the identity of a new function and the first free identity of an instruction.
unfoldable pub run_on_module : ℕ → ℕ → Module → InjectRun
run_on_module new_id n m =
    let printf = get_or_insert_printf new_id m.functions in
    let hello = string_global "PrintfFormatStr" hello_format m.globals in
    let step3 = say_hello_all printf.0 hello.value printf.1 hello.globals n in
    let home = string_global "HomeWorkFormatStr" return_format step3.globals in
    let logged = log_functions printf.0 home.value step3.now home.globals step3.next in
    record {
      output = record { functions = logged.now; globals = logged.globals };
      changed = has_definition printf.1;
    }

unfoldable pub run : ℕ → ℕ → Module → Module × PreservedAnalyses
run new_id n m =
    let out = run_on_module new_id n m in
    (
      out.output,
      if out.changed then PreservedAnalyses.none_preserved else PreservedAnalyses.all_preserved,
    )
