-- ===== src/Inject/Erase.antt =====
-- InjectFuncCall only adds instructions: without the new ones, the functions are as they were.
use Prim.Native.String.{String}
use llvm_tutor.Prelude.{
  ℕ, ◌+◌, ◌≤◌, ◌≡◌, refl, ap, ◌∙◌, Bool, Option, none, some, inl, inr, List, [], ◌∷◌, ◌++◌,
  All-append, arith, Bool-cases,
}
use llvm_tutor.Ir.{Value, Ty, Instruction, BasicBlock, Function, GlobalVariable, Module}
use llvm_tutor.Inject.{
  hello_call, printf_declaration, create_global_string, find_function, string_global, hello_format,
  return_format, get_or_insert_printf, Injected, say_hello, say_hello_all, arg0, is_return,
  log_block, log_blocks, log_functions, run_on_module,
}
use llvm_tutor.Inject.Erasure.{
  erase, erase_blocks, erase_functions, IsBelowAll, erase_new, erase_below, erase-insert_at_top,
  erase_all_functions,
}

unfoldable in_list : Injected Function → Injected (List Function)
in_list out = record { now = out.now ∷ []; globals = out.globals; next = out.next }

module _ (n0 : ℕ) where
  record Erased (n : ℕ) (fs : List Function) (out : Injected (List Function)) : Type 0 where
    same : erase_functions n0 out.now ≡ erase_functions n0 fs
    grows : n ≤ out.next

  record ErasedBlocks (n : ℕ) (bs : List BasicBlock) (out : Injected (List BasicBlock))
      : Type 0 where
    same : erase_blocks n0 out.now ≡ erase_blocks n0 bs
    grows : n ≤ out.next

  record ErasedBlock (n : ℕ) (is : List Instruction) (out : Injected (List Instruction))
      : Type 0 where
    same : erase n0 out.now ≡ erase n0 is
    grows : n ≤ out.next

  module _ (printf format : ℕ) where
    log_block-erased :
        (name : String) (v : Value) (is : List Instruction) (gs : List GlobalVariable) (n : ℕ)
        → n0 ≤ n
        → ErasedBlock n is (log_block printf format name v is gs n)
    unfolding log_block
    log_block-erased name v [] gs n h = record { same = refl; grows = omega arith }
    log_block-erased name v (i ∷ is) gs n h = elim (Bool-cases (is_return i.opcode)) [
      | inl r ↦
          let rest =
            log_block-erased name v is (create_global_string name gs).globals (n + 1)
              (omega (arith, h)) in
          rw (r, log_block)
            record {
              same = erase_new n0 _ _ h ∙ erase_below n0 i _ is rest.same;
              grows = omega (arith, rest.grows);
            }
      | inr r ↦
          let rest = log_block-erased name v is gs n h in
          rw (r, log_block) record { same = erase_below n0 i _ is rest.same; grows = rest.grows }
    ]

    log_blocks-erased :
        (name : String) (v : Value) (bs : List BasicBlock) (gs : List GlobalVariable) (n : ℕ)
        → n0 ≤ n
        → ErasedBlocks n bs (log_blocks printf format name v bs gs n)
    unfolding log_blocks erase_blocks
    log_blocks-erased name v [] gs n h = record { same = refl; grows = omega arith }
    log_blocks-erased name v (b ∷ bs) gs n h =
        let here = log_block-erased name v b.instructions gs n h in
        let out = log_block printf format name v b.instructions gs n in
        let rest =
          log_blocks-erased name v bs out.globals out.next (omega (arith, h, here.grows)) in
        record {
          same = λ k. record b { instructions = here.same k } ∷ rest.same k;
          grows = omega (arith, here.grows, rest.grows);
        }

    log_functions-Erased :
        (fs : List Function) (gs : List GlobalVariable) (n : ℕ)
        → n0 ≤ n
        → Erased n fs (log_functions printf format fs gs n)
    unfolding log_functions erase_functions
    log_functions-Erased [] gs n h = record { same = refl; grows = omega arith }
    log_functions-Erased (f ∷ fs) gs n h =
        let here = log_blocks-erased f.name (arg0 f.args) f.blocks gs n h in
        let out = log_blocks printf format f.name (arg0 f.args) f.blocks gs n in
        let rest = log_functions-Erased fs out.globals out.next (omega (arith, h, here.grows)) in
        record {
          same = λ k. record f { blocks = here.same k } ∷ rest.same k;
          grows = omega (arith, here.grows, rest.grows);
        }

    abbrev call_of :
        ℕ → String → List Ty → List BasicBlock → Bool → List GlobalVariable → ℕ → Instruction
    call_of id name args bs o gs n =
        hello_call printf format
          (record { id = id; name = name; args = args; blocks = bs; opt_none = o }) n
          (create_global_string name gs).value

    say_hello-Erased :
        (id : ℕ) (name : String) (args : List Ty) (bs : List BasicBlock) (o : Bool)
        (gs : List GlobalVariable) (n : ℕ)
        → n0 ≤ n
        → Erased n (record { id = id; name = name; args = args; blocks = bs; opt_none = o } ∷ []) (
            in_list (
              say_hello printf format
                (record { id = id; name = name; args = args; blocks = bs; opt_none = o })
                gs
                n))
    unfolding say_hello erase_functions erase_blocks in_list
    say_hello-Erased id name args [] o gs n h = record { same = refl; grows = omega arith }
    say_hello-Erased id name args (b ∷ bs) o gs n h = record {
      same = λ k.
          record {
            id = id;
            name = name;
            args = args;
            blocks =
                record b {
                  instructions =
                      erase-insert_at_top n0 (call_of id name args (b ∷ bs) o gs n) b.instructions h
                        k;
                }
                ∷ erase_blocks n0 bs;
            opt_none = o;
          }
          ∷ [];
      grows = omega arith;
    }

    say_hello_all-Erased :
        (fs : List Function) (gs : List GlobalVariable) (n : ℕ)
        → n0 ≤ n
        → Erased n fs (say_hello_all printf format fs gs n)
    unfolding say_hello_all erase_functions in_list
    say_hello_all-Erased [] gs n h = record { same = refl; grows = omega arith }
    say_hello_all-Erased (f ∷ fs) gs n h =
        let here = say_hello-Erased f.id f.name f.args f.blocks f.opt_none gs n h in
        let out = say_hello printf format f gs n in
        let rest = say_hello_all-Erased fs out.globals out.next (omega (arith, h, here.grows)) in
        record {
          same =
              ap
                (λ l.
                  l ++ erase_functions n0 (say_hello_all printf format fs out.globals out.next).now)
                here.same
              ∙ ap (λ r. erase_functions n0 (f ∷ []) ++ r) rest.same;
          grows = omega (arith, here.grows, rest.grows);
        }

  found-IsBelowAll :
      (new_id : ℕ) (fs : List Function)
      → IsBelowAll n0 fs
      → IsBelowAll n0 (get_or_insert_printf new_id fs).1
  unfolding get_or_insert_printf
  found-IsBelowAll new_id fs a = go (find_function "printf" fs)
    where
      go :
          (o : Option ℕ)
          → IsBelowAll n0
              (elim o as (λ x. ℕ × List Function) [
                | some k ↦ (k, fs)
                | none ↦ (new_id, fs ++ (printf_declaration new_id ∷ []))
              ]).1
      go none = All-append _ fs _ a (_, _)
      go (some k) = a

  -- If all instructions have identities below n, and the new ones from n on, then the functions
  -- without the new instructions are those of the module, with the declaration of printf.
  pub run_on_module-erased :
      (new_id : ℕ) (m : Module)
      → IsBelowAll n0 m.functions
      → erase_functions n0 (run_on_module new_id n0 m).output.functions
        ≡ (get_or_insert_printf new_id m.functions).1
  unfolding run_on_module
  run_on_module-erased new_id m a =
      let printf = get_or_insert_printf new_id m.functions in
      let hello = string_global "PrintfFormatStr" hello_format m.globals in
      let first =
        say_hello_all-Erased printf.0 hello.value printf.1 hello.globals n0 (omega arith) in
      let step3 = say_hello_all printf.0 hello.value printf.1 hello.globals n0 in
      let home = string_global "HomeWorkFormatStr" return_format step3.globals in
      let second =
        log_functions-Erased printf.0 home.value step3.now home.globals step3.next first.grows in
      second.same
      ∙ first.same
      ∙ erase_all_functions n0 printf.1 (found-IsBelowAll new_id m.functions a)
