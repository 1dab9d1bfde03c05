-- ===== src/DynamicCalls/Printed.antt =====
-- STEP 4 of DynamicCallCounter: what the function that runs when the program ends hands to printf.
use Prim.Native.String.{String, ◌++◌ as append}
use llvm_tutor.Prelude.{
  ℕ, ◌+◌, ◌≡◌, refl, ap₂, inl, inr, some, List, [], ◌∷◌, map, All, All-map, Any, arith, Bool-cases,
}
use llvm_tutor.Prelude.Containers.{string_eq, ◌===◌, find, lookup}
use llvm_tutor.Ir.{
  Value, global, function, instruction, call_base, Instruction, Function, GlobalVariable,
}
use llvm_tutor.DynamicCalls.{print_counters, instrument_all, counter_start}
use llvm_tutor.DynamicCalls.Globals.{name_at}
use llvm_tutor.DynamicCalls.Increment.{Memory, exec_inst}
use llvm_tutor.DynamicCalls.Strings.{IsString, instrument_all-HasNames}
use llvm_tutor.DynamicCalls.Counted.{IsDefinition, instrument_all-AreCounted}

-- What a call gets for an operand: what a register holds, or the address of something else.
pub data Passed : Type 0 where
  number : ℕ → Passed
  address : Value → Passed

abbrev pub pass : Memory → Value → Passed
pass m (instruction k) = number (m.registers k)
pass m v = address v

-- The calls that straight code makes, each with what it passes; the callee is the last.
unfoldable pub calls_made : List Instruction → Memory → List (List Passed)
calls_made [] m = []
calls_made (i ∷ is) m =
    let rest = calls_made is (exec_inst i m) in
    elim i.opcode [ call_base f d ↦ map (pass m) i.operands ∷ rest | _ ↦ rest ]

module _ (printf format : ℕ) (names : List (String × ℕ)) where
  -- printf, called with the format, the name of an entry and what its counter holds.
  abbrev pub row_call : (ℕ → ℕ) → String × ℕ → List Passed
  row_call cells item =
      address (global format)
      ∷ address (global (lookup item.0 0 names))
      ∷ number (cells item.1)
      ∷ address (function printf)
      ∷ []

  print_counters-calls :
      (items : List (String × ℕ)) (n : ℕ) (m : Memory)
      → calls_made (print_counters printf format names items n) m ≡ map (row_call m.cells) items
  unfolding calls_made print_counters
  print_counters-calls [] n m = refl
  print_counters-calls ((name, var) ∷ items) n m =
      ap₂
        (λ v rest.
          (address (global format)
            ∷ address (global (lookup name 0 names))
            ∷ number v
            ∷ address (function printf)
            ∷ [])
          ∷ rest)
        (ground arith) (print_counters-calls items (n + 2) _)

  row_found :
      (cells : ℕ → ℕ) (items : List (String × ℕ)) (name : String) (var : ℕ)
      → find name items ≡ some var
      → Any (λ c. c ≡ row_call cells (name, var)) (map (row_call cells) items)
  unfolding find
  row_found cells [] name var h = absurd (ground (arith, h))
  row_found cells ((k, v) ∷ items) name var h = elim (Bool-cases (k === name)) [
    | inl e ↦
        let key = (string_eq.beq_iff k name).0 e in
        let value : v ≡ var = ground (arith, h, e) in
        inl (ap₂ (λ s w. row_call cells (s, w)) key value)
    | inr e ↦ inr (row_found cells items name var (ground (arith, h, e)))
  ]

lookup-find :
    (name : String) (k : ℕ) (m : List (String × ℕ)) → find name m ≡ some k → lookup name 0 m ≡ k
unfolding lookup
lookup-find name k m h = ground (arith, h)

All-both {ℓ} :
    {A : Type ℓ} (P Q : A → Type 0) (xs : List A) → All P xs → All Q xs → All (λ x. P x × Q x) xs
All-both P Q [] p q = _
All-both P Q (x ∷ xs) p q = ((p.0, q.0), All-both P Q xs p.1 q.1)

-- The code that STEP 4 emits for the maps of STEP 1, run in any memory, calls printf once for each
-- entry of CallCounterMap, in its order, and for every definition there is a call that passes a
-- global with the function's name as its text, and the number that the global named CounterFor_ and
-- that name holds then.
pub wrapper_code-calls :
    (printf format start n : ℕ) (gs : List GlobalVariable) (fs : List Function) (m : Memory)
    → let st = (instrument_all fs (counter_start start gs)).1 in
      let calls =
        calls_made (print_counters printf format st.func_name_map st.call_counter_map n) m in
      (calls ≡ map (row_call printf format st.func_name_map m.cells) st.call_counter_map)
      × All
          (λ f.
            IsDefinition f
            → (k : ℕ) × (var : ℕ) × IsString k f.name st.globals
              × (name_at var st.globals ≡ some (append "CounterFor_" f.name))
              × Any
                  (λ c.
                    c
                    ≡ address (global format)
                      ∷ address (global k)
                      ∷ number (m.cells var)
                      ∷ address (function printf)
                      ∷ [])
                  calls)
          fs
wrapper_code-calls printf format start n gs fs m =
    let st = (instrument_all fs (counter_start start gs)).1 in
    let names = st.func_name_map in
    let same = print_counters-calls printf format names st.call_counter_map n m in
    let counters = (instrument_all-AreCounted start gs fs).2 in
    let texts = (instrument_all-HasNames fs (counter_start start gs)).has in
    (
      same,
      All-map _ _ fs
          (λ f g d.
            let counter = g.0 d in
            let text = g.1 d in
            let key : lookup f.name 0 names ≡ text.0 = lookup-find f.name text.0 names text.1 in
            let call =
              row_found printf format names m.cells st.call_counter_map f.name counter.0
                counter.1 in
            (text.0, counter.0, text.2, counter.2, rw (same, ← key) call))
          (All-both _ _ fs counters texts),
    )
