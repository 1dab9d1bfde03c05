-- ===== src/DynamicCalls/Strings.antt =====
-- FuncNameMap of DynamicCallCounter: unnamed globals with the names of functions as their texts, which
-- no later insertion changes.
use Prim.Native.String.{String, ◌++◌ as append, len}
use text.Mathlib.TextPositions.{len-append}
use llvm_tutor.Prelude.{
  ℕ, zero, suc, ◌≡◌, refl, sym, ap, ◌∙◌, inl, inr, Option, none, some, List, [], ◌∷◌, ◌++◌, length,
  All, arith, Bool-cases,
}
use llvm_tutor.Prelude.Containers.{string_eq, ◌===◌, find, find-modify}
use llvm_tutor.Ir.{
  Ty, Initializer, string_data, int_data, int_ty, BasicBlock, Function, GlobalVariable,
}
use llvm_tutor.Inject.{global_index, set_initializer, WithGlobals, initialized_global}
use llvm_tutor.DynamicCalls.{
  create_global_counter, counter_name, CounterState, assign, count_function, instrument,
  instrument_all,
}
use llvm_tutor.DynamicCalls.Globals.{name_at, name_at-global_index}
use llvm_tutor.DynamicCalls.Counted.{IsDefinition}

-- The global at k is unnamed and starts with the text s.
unfoldable pub IsString : ℕ → String → List GlobalVariable → Type 0
IsString k s [] = ⊥
IsString zero s (g ∷ gs) = (g.name ≡ "") × (g.initializer ≡ some (string_data s))
IsString (suc k) s (g ∷ gs) = IsString k s gs

abbrev KeepsStrings : List GlobalVariable → List GlobalVariable → Type 0
KeepsStrings gs hs = (k : ℕ) (s : String) → IsString k s gs → IsString k s hs

IsString-append : (gs hs : List GlobalVariable) → KeepsStrings gs (gs ++ hs)
unfolding IsString
IsString-append [] hs k s h = absurd h
IsString-append (g ∷ gs) hs zero s h = h
IsString-append (g ∷ gs) hs (suc k) s h = IsString-append gs hs k s h

IsString-last :
    (gs : List GlobalVariable) (g : GlobalVariable) (s : String)
    → g.name ≡ ""
    → g.initializer ≡ some (string_data s)
    → IsString (length gs) s (gs ++ (g ∷ []))
unfolding IsString
IsString-last [] g s p q = (p, q)
IsString-last (h ∷ gs) g s p q = IsString-last gs g s p q

-- Another initializer for a global with a name.
IsString-set_initializer :
    (j : ℕ) (v : Initializer) (name : String) (gs : List GlobalVariable)
    → (name ≡ "" → ⊥)
    → name_at j gs ≡ some name
    → KeepsStrings gs (set_initializer j v gs)
unfolding IsString set_initializer name_at
IsString-set_initializer j v name [] n e k s h = absurd h
IsString-set_initializer zero v name (g ∷ gs) n e zero s h =
    let named : g.name ≡ name = ground (arith, e) in absurd (n (sym named ∙ h.0))
IsString-set_initializer zero v name (g ∷ gs) n e (suc k) s h = h
IsString-set_initializer (suc j) v name (g ∷ gs) n e zero s h = h
IsString-set_initializer (suc j) v name (g ∷ gs) n e (suc k) s h =
    IsString-set_initializer j v name gs n e k s h

initialized_cases :
    (name : String) (ty : Ty) (v : Initializer) (gs : List GlobalVariable) (o : Option ℕ)
    → (name ≡ "" → ⊥)
    → global_index name gs ≡ o
    → KeepsStrings gs
        (elim o as (λ x. WithGlobals ℕ) [
          | some k ↦ record { value = k; globals = set_initializer k v gs }
          | none ↦ record {
            value = length gs;
            globals = gs ++ (record { name = name; value_ty = ty; initializer = some v } ∷ []);
          }
        ]).globals
initialized_cases name ty v gs none n e = IsString-append gs _
initialized_cases name ty v gs (some j) n e =
    IsString-set_initializer j v name gs n (name_at-global_index name gs j e)

counter_name-full : (name : String) → counter_name name ≡ "" → ⊥
counter_name-full name h =
    let longer = len-append "CounterFor_" name in
    let same : len (append "CounterFor_" name) ≡ 0 = ap len h in omega (arith, longer, same)

counter_keeps :
    (name : String) (gs : List GlobalVariable)
    → KeepsStrings gs (create_global_counter (counter_name name) gs).globals
unfolding initialized_global
counter_keeps name gs =
    initialized_cases (counter_name name) (int_ty 32) (int_data 0) gs _ (counter_name-full name)
      refl

-- The map has for the name a global with the name as its text.
abbrev pub HasName : List GlobalVariable → List (String × ℕ) → String → Type 0
HasName gs items name = (k : ℕ) × (find name items ≡ some k) × IsString k name gs

name_there :
    (gs : List GlobalVariable) (name : String) (k : ℕ) (items : List (String × ℕ))
    → IsString k name gs
    → HasName gs (assign name k items) name
name_there gs name k items h =
    (k, ground (arith, find-modify name name 0 (λ j. k) items, string_eq.beq_iff name name), h)

name_kept :
    (gs hs : List GlobalVariable) (name other : String) (k : ℕ) (items : List (String × ℕ))
    → KeepsStrings gs hs
    → IsString k name hs
    → HasName gs items other
    → HasName hs (assign name k items) other
name_kept gs hs name other k items keeps h (j, f, q) = elim (Bool-cases (name === other)) [
  | inl e ↦
      let same = (string_eq.beq_iff name other).0 e in rw (← same) (name_there hs name k items h)
  | inr e ↦ (j, ground (arith, find-modify name other 0 (λ i. k) items, e, f), keeps j _ q)
]

record Step (f : Function) (st out : CounterState) : Type 0 where
  has : IsDefinition f → HasName out.globals out.func_name_map f.name
  had :
      (name : String)
      → HasName st.globals st.func_name_map name
      → HasName out.globals out.func_name_map name

step_definition : (f : Function) (st : CounterState) → Step f st (count_function f st)
step_definition f st =
    let var = create_global_counter (counter_name f.name) st.globals in
    let there = IsString-last var.globals _ f.name refl refl in
    record {
      has = λ d. name_there _ f.name (length var.globals) st.func_name_map there;
      had = λ name h.
          name_kept st.globals _ f.name name (length var.globals) st.func_name_map
            (λ k s q. IsString-append var.globals _ k s (counter_keeps f.name st.globals k s q))
            there h;
    }

step_cases :
    (f : Function) (st : CounterState) (bs : List BasicBlock)
    → f.blocks ≡ bs
    → Step f st (elim bs as (λ x. CounterState) [ [] ↦ st | b ∷ more ↦ count_function f st ])
step_cases f st [] e = record { has = λ d. absurd (d e); had = λ name h. h }
step_cases f st (b ∷ bs) e = step_definition f st

instrument-state :
    (f : Function) (st : CounterState)
    → (instrument f st).1
      ≡ (elim f.blocks as (λ x. CounterState) [ [] ↦ st | b ∷ more ↦ count_function f st ])
unfolding instrument
instrument-state f st = by_blocks f.blocks
  where
    by_blocks :
        (bs : List BasicBlock)
        → (instrument (record f { blocks = bs }) st).1
          ≡ (elim bs as (λ x. CounterState) [ [] ↦ st | b ∷ more ↦ count_function f st ])
    by_blocks [] = refl
    by_blocks (b ∷ bs) = refl

pub record HasNames (fs : List Function) (st out : CounterState) : Type 0 where
  pub has : All (λ f. IsDefinition f → HasName out.globals out.func_name_map f.name) fs
  pub had :
      (name : String)
      → HasName st.globals st.func_name_map name
      → HasName out.globals out.func_name_map name

-- FuncNameMap has a global with the name of every definition as its text.
pub instrument_all-HasNames :
    (fs : List Function) (st : CounterState) → HasNames fs st (instrument_all fs st).1
unfolding instrument_all
instrument_all-HasNames [] st = record { has = _; had = λ name h. h }
instrument_all-HasNames (f ∷ fs) st =
    let here : Step f st (instrument f st).1 =
      rw (instrument-state f st) (step_cases f st f.blocks refl) in
    let rest = instrument_all-HasNames fs (instrument f st).1 in
    record {
      has = (λ d. rest.had f.name (here.has d), rest.has);
      had = λ name h. rest.had name (here.had name h);
    }
