-- ===== src/StaticCalls/Correct.antt =====
-- The tables of StaticCallCounter, against the direct calls in the module.
use llvm_tutor.Prelude.{
  ℕ, ◌+◌, ◌==◌, ◌≡◌, refl, ap, ◌∙◌, Bool, true, false, ◌||◌, ◌&&◌, Option, none, some, List, [],
  ◌∷◌, if◌then◌else◌, arith, wrap_unsigned, Bool-cases, inl, inr, ==_iff,
}
use llvm_tutor.Prelude.Containers.{
  nat_eq, find, lookup, modify, lookup-modify, contains, insert, contains-insert,
}
use llvm_tutor.Ir.{Instruction, BasicBlock, Function, Module}
use llvm_tutor.StaticCalls.{
  ResultStaticCc, ResultCaller, CallState, called_function, count_call, visit_instruction,
  visit_block, visit_blocks, is_declaration, visit_functions, run_on_module,
}

abbrev calls : Instruction → ℕ → Bool
calls i callee = elim (called_function i.opcode) [ none ↦ false | some f ↦ f == callee ]

-- How many direct calls of the function there are.
unfoldable pub calls_in_block : ℕ → List Instruction → ℕ
calls_in_block callee [] = 0
calls_in_block callee (i ∷ is) =
    let rest = calls_in_block callee is in if calls i callee then rest + 1 else rest

unfoldable pub calls_in_blocks : ℕ → List BasicBlock → ℕ
calls_in_blocks callee [] = 0
calls_in_blocks callee (b ∷ bs) = calls_in_block callee b.instructions + calls_in_blocks callee bs

unfoldable pub calls_in_functions : ℕ → List Function → ℕ
calls_in_functions callee [] = 0
calls_in_functions callee (f ∷ fs) = calls_in_blocks callee f.blocks + calls_in_functions callee fs

-- A function with the identity `caller` calls it.
unfoldable pub called_in_block : ℕ → List Instruction → Bool
called_in_block callee [] = false
called_in_block callee (i ∷ is) = calls i callee || called_in_block callee is

unfoldable pub called_in_blocks : ℕ → List BasicBlock → Bool
called_in_blocks callee [] = false
called_in_blocks callee (b ∷ bs) =
    called_in_block callee b.instructions || called_in_blocks callee bs

unfoldable pub calls_from : ℕ → ℕ → List Function → Bool
calls_from callee caller [] = false
calls_from callee caller (f ∷ fs) =
    (f.id == caller && called_in_blocks callee f.blocks) || calls_from callee caller fs

modify_counts :
    (f callee c : ℕ) (m : ResultStaticCc)
    → lookup callee 0 m ≡ wrap_unsigned c
    → lookup callee 0 (modify f 0 (λ n. wrap_unsigned (n + 1)) m)
      ≡ wrap_unsigned (if f == callee then c + 1 else c)
modify_counts f callee c m h = elim (Bool-cases (f == callee)) [
  | inl e ↦
      let same = ap (λ k. lookup k 0 m) ((==_iff f callee).0 e) in
      lookup-modify f callee 0 _ m ∙ rw e (omega (arith, same, h))
  | inr e ↦ lookup-modify f callee 0 _ m ∙ rw e h
]

modify_callers :
    (f callee func g : ℕ) (m : ResultCaller)
    → contains (lookup callee [] (modify f [] (insert func) m)) g
      ≡ ((func == g && f == callee) || contains (lookup callee [] m) g)
modify_callers f callee func g m = elim (Bool-cases (f == callee)) [
  | inl e ↦
      let same = ap (λ k. contains (lookup k [] m) g) ((==_iff f callee).0 e) in
      ap (λ s. contains s g) (lookup-modify f callee [] (insert func) m)
      ∙ rw e (contains-insert func g (lookup f [] m) ∙ ground (arith, same))
  | inr e ↦ ap (λ s. contains s g) (lookup-modify f callee [] (insert func) m) ∙ rw e (ground arith)
]

module _ (callee : ℕ) where
  instruction_counts :
      (func : ℕ) (i : Instruction) (st : CallState) (c : ℕ)
      → lookup callee 0 st.res ≡ wrap_unsigned c
      → lookup callee 0 (visit_instruction func i st).res
        ≡ wrap_unsigned (if calls i callee then c + 1 else c)
  unfolding visit_instruction count_call
  instruction_counts func i st c h = go (called_function i.opcode)
    where
      go :
          (o : Option ℕ)
          → lookup callee 0
              (elim o as (λ x. CallState) [ none ↦ st | some f ↦ count_call func f st ]).res
            ≡ wrap_unsigned (
                if (elim o as (λ x. Bool) [ none ↦ false | some f ↦ f == callee ])
                then c + 1
                else c)
      go none = h
      go (some f) = modify_counts f callee c st.res h

  instruction_callers :
      (func g : ℕ) (i : Instruction) (st : CallState)
      → contains (lookup callee [] (visit_instruction func i st).caller_result) g
        ≡ ((func == g && calls i callee) || contains (lookup callee [] st.caller_result) g)
  unfolding visit_instruction count_call
  instruction_callers func g i st = go (called_function i.opcode)
    where
      go :
          (o : Option ℕ)
          → contains
              (lookup callee []
                (elim o as (λ x. CallState) [
                  | none ↦ st
                  | some f ↦ count_call func f st
                ]).caller_result)
              g
            ≡ ((func == g && (elim o as (λ x. Bool) [ none ↦ false | some f ↦ f == callee ]))
                || contains (lookup callee [] st.caller_result) g)
      go none = ground arith
      go (some f) = modify_callers f callee func g st.caller_result

  block_counts :
      (func : ℕ) (is : List Instruction) (st : CallState) (c : ℕ)
      → lookup callee 0 st.res ≡ wrap_unsigned c
      → lookup callee 0 (visit_block func is st).res ≡ wrap_unsigned (c + calls_in_block callee is)
  unfolding visit_block calls_in_block
  block_counts func [] st c h = ground (arith, h)
  block_counts func (i ∷ is) st c h = ground (
    arith,
    block_counts func is (visit_instruction func i st) _ (instruction_counts func i st c h),
  )

  block_callers :
      (func g : ℕ) (is : List Instruction) (st : CallState)
      → contains (lookup callee [] (visit_block func is st).caller_result) g ≡ (
          (func == g && called_in_block callee is)
          || contains (lookup callee [] st.caller_result) g)
  unfolding visit_block called_in_block
  block_callers func g [] st = ground arith
  block_callers func g (i ∷ is) st = ground (
    arith,
    block_callers func g is (visit_instruction func i st),
    instruction_callers func g i st,
  )

  blocks_count :
      (func : ℕ) (bs : List BasicBlock) (st : CallState) (c : ℕ)
      → lookup callee 0 st.res ≡ wrap_unsigned c
      → lookup callee 0 (visit_blocks func bs st).res
        ≡ wrap_unsigned (c + calls_in_blocks callee bs)
  unfolding visit_blocks calls_in_blocks
  blocks_count func [] st c h = ground (arith, h)
  blocks_count func (b ∷ bs) st c h =
      blocks_count func bs (visit_block func b.instructions st) _
        (block_counts func b.instructions st c h)
      ∙ omega arith

  blocks_callers :
      (func g : ℕ) (bs : List BasicBlock) (st : CallState)
      → contains (lookup callee [] (visit_blocks func bs st).caller_result) g ≡ (
          (func == g && called_in_blocks callee bs)
          || contains (lookup callee [] st.caller_result) g)
  unfolding visit_blocks called_in_blocks
  blocks_callers func g [] st = ground arith
  blocks_callers func g (b ∷ bs) st = ground (
    arith,
    blocks_callers func g bs (visit_block func b.instructions st),
    block_callers func g b.instructions st,
  )

  -- A declaration has nothing to visit.
  skip_declaration :
      (f : Function) (st : CallState)
      → (if is_declaration f then st else visit_blocks f.id f.blocks st)
        ≡ visit_blocks f.id f.blocks st
  unfolding visit_blocks
  skip_declaration f st = go f.blocks
    where
      go :
          (bs : List BasicBlock)
          → (if (elim bs as (λ x. Bool) [ [] ↦ true | b ∷ more ↦ false ])
              then st
              else visit_blocks f.id bs st)
            ≡ visit_blocks f.id bs st
      go [] = refl
      go (b ∷ bs) = refl

  functions_count :
      (fs : List Function) (st : CallState) (c : ℕ)
      → lookup callee 0 st.res ≡ wrap_unsigned c
      → lookup callee 0 (visit_functions fs st).res
        ≡ wrap_unsigned (c + calls_in_functions callee fs)
  unfolding visit_functions calls_in_functions
  functions_count [] st c h = ground (arith, h)
  functions_count (f ∷ fs) st c h =
      ap (λ s. lookup callee 0 (visit_functions fs s).res) (skip_declaration f st)
      ∙ functions_count fs (visit_blocks f.id f.blocks st) _ (blocks_count f.id f.blocks st c h)
      ∙ omega arith

  functions_callers :
      (g : ℕ) (fs : List Function) (st : CallState)
      → contains (lookup callee [] (visit_functions fs st).caller_result) g
        ≡ (calls_from callee g fs || contains (lookup callee [] st.caller_result) g)
  unfolding visit_functions calls_from
  functions_callers g [] st = ground arith
  functions_callers g (f ∷ fs) st =
      ap (λ s. contains (lookup callee [] (visit_functions fs s).caller_result) g)
        (skip_declaration f st)
      ∙ ground (
        arith,
        functions_callers g fs (visit_blocks f.id f.blocks st),
        blocks_callers f.id g f.blocks st,
      )

-- Res counts, as a 32-bit number, the direct calls of the function in the whole module.
pub run_on_module-counts :
    (callers : ResultCaller) (m : Module) (callee : ℕ)
    → lookup callee 0 (run_on_module callers m).res
      ≡ wrap_unsigned (calls_in_functions callee m.functions)
unfolding run_on_module lookup find
run_on_module-counts callers m callee = ground (
  arith,
  functions_count callee m.functions (record { res = []; caller_result = callers }) 0 refl,
)

-- CallerResult holds for a callee the functions that call it directly, besides what it held before
-- the run.
pub run_on_module-callers :
    (callers : ResultCaller) (m : Module) (callee caller : ℕ)
    → contains (lookup callee [] (run_on_module callers m).caller_result) caller
      ≡ (calls_from callee caller m.functions || contains (lookup callee [] callers) caller)
unfolding run_on_module
run_on_module-callers callers m callee caller = functions_callers callee caller m.functions _
