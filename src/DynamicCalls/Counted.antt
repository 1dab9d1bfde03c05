-- ===== src/DynamicCalls/Counted.antt =====
-- STEP 1 of DynamicCallCounter: the counters that functions count in and that the wrapper prints.
use Prim.Native.String.{String, ◌++◌ as append}
use llvm_tutor.Prelude.{
  ℕ, ◌≡◌, refl, sym, ap, ◌∙◌, ◌⊎◌, inl, inr, some, List, [], ◌∷◌, All, Bool-cases, arith,
}
use llvm_tutor.Prelude.Containers.{string_eq, ◌===◌, modify, find, find-modify}
use llvm_tutor.Ir.{int_ty, int_data, Instruction, BasicBlock, Function, GlobalVariable}
use llvm_tutor.DynamicCalls.{
  create_global_counter, counter_name, counter_code, insert_code, CounterState, assign,
  count_function, instrument, instrument_all, counter_start,
}
use llvm_tutor.DynamicCalls.Increment.{
  IsIncrement, IsAtTop, counter_code-IsIncrement, insert_code-IsAtTop,
}
use llvm_tutor.DynamicCalls.Globals.{name_at, KeepsNames, name_at-append, initialized_global-named}

-- The globals of a map are the counters of its keys.
abbrev pub IsCounterMap : List GlobalVariable → List (String × ℕ) → Type 0
IsCounterMap gs items = All (λ p. name_at p.1 gs ≡ some (append "CounterFor_" p.0)) items

abbrev pub IsDefinition : Function → Type 0
IsDefinition f = f.blocks ≡ [] → ⊥

-- The map holds the counter of a name.
abbrev pub HasCounter : List GlobalVariable → List (String × ℕ) → String → Type 0
HasCounter gs items name =
    (var : ℕ) × (find name items ≡ some var) × (name_at var gs ≡ some (append "CounterFor_" name))

-- A definition increments its own counter at the top of its entry block; a declaration is as it was.
abbrev pub IsCounted : List GlobalVariable → Function → Function → Type 0
IsCounted gs f g =
    ((f.blocks ≡ []) × (g ≡ f))
    ⊎ ((b : BasicBlock) × (bs : List BasicBlock) × (n : ℕ) × (var : ℕ) × (code : List Instruction)
        × (new : List Instruction) × (f.blocks ≡ b ∷ bs)
        × (name_at var gs ≡ some (append "CounterFor_" f.name))
        × IsIncrement n var code
        × IsAtTop code b.instructions new
        × (g ≡ record f { blocks = record b { instructions = new } ∷ bs }))

abbrev pub AreCounted : List GlobalVariable → List Function → List Function → Type 0
AreCounted gs [] [] = Unit
AreCounted gs [] (g ∷ out) = ⊥
AreCounted gs (f ∷ fs) [] = ⊥
AreCounted gs (f ∷ fs) (g ∷ out) = IsCounted gs f g × AreCounted gs fs out

map_keeps :
    (gs hs : List GlobalVariable) (items : List (String × ℕ))
    → KeepsNames gs hs
    → IsCounterMap gs items
    → IsCounterMap hs items
map_keeps gs hs [] f a = _
map_keeps gs hs ((s, v) ∷ items) f (a, more) = (f v _ a, map_keeps gs hs items f more)

assigned :
    (gs : List GlobalVariable) (name : String) (var : ℕ) (items : List (String × ℕ))
    → name_at var gs ≡ some (append "CounterFor_" name)
    → IsCounterMap gs items
    → IsCounterMap gs (assign name var items)
unfolding modify
assigned gs name var [] h a = (h, _)
assigned gs name var ((s, v) ∷ items) h (a, more) = elim (Bool-cases (s === name)) [
  | inl e ↦
      rw e
        (h ∙ ap (λ t. some (append "CounterFor_" t)) (sym ((string_eq.beq_iff s name).0 e)), more)
  | inr e ↦ rw e (a, assigned gs name var items h more)
]

counter_there :
    (gs : List GlobalVariable) (name : String) (var : ℕ) (items : List (String × ℕ))
    → name_at var gs ≡ some (append "CounterFor_" name)
    → HasCounter gs (assign name var items) name
counter_there gs name var items h =
    (var, ground (arith, find-modify name name 0 (λ k. var) items, string_eq.beq_iff name name), h)

-- A later assignment keeps the counters that the map has.
counter_kept :
    (gs hs : List GlobalVariable) (name other : String) (var : ℕ) (items : List (String × ℕ))
    → KeepsNames gs hs
    → name_at var hs ≡ some (append "CounterFor_" name)
    → HasCounter gs items other
    → HasCounter hs (assign name var items) other
counter_kept gs hs name other var items k h (v, f, q) = elim (Bool-cases (name === other)) [
  | inl e ↦
      let same = (string_eq.beq_iff name other).0 e in
      rw (← same) (counter_there hs name var items h)
  | inr e ↦ (v, ground (arith, find-modify name other 0 (λ k. var) items, e, f), k v _ q)
]

record Step (f : Function) (st : CounterState) (out : Function × CounterState) : Type 0 where
  keeps : KeepsNames st.globals out.1.globals
  counted : IsCounted out.1.globals f out.0
  mapped :
      IsCounterMap st.globals st.call_counter_map
      → IsCounterMap out.1.globals out.1.call_counter_map
  has : IsDefinition f → HasCounter out.1.globals out.1.call_counter_map f.name
  had :
      (name : String)
      → HasCounter st.globals st.call_counter_map name
      → HasCounter out.1.globals out.1.call_counter_map name

step_definition :
    (f : Function) (b : BasicBlock) (bs : List BasicBlock) (st : CounterState)
    → f.blocks ≡ b ∷ bs
    → Step f st (
      record f {
        blocks =
            record b {
              instructions =
                  insert_code
                    (counter_code st.next
                      (create_global_counter (counter_name f.name) st.globals).value)
                    b.instructions;
            }
            ∷ bs;
      },
      count_function f st,
    )
step_definition f b bs st e =
    let var = create_global_counter (counter_name f.name) st.globals in
    let named =
      initialized_global-named (counter_name f.name) (int_ty 32) (int_data 0) st.globals in
    let after = name_at-append var.globals _ in
    let keeps : KeepsNames st.globals (count_function f st).globals =
      λ k s h. after k s (named.1 k s h) in
    record {
      keeps = keeps;
      counted = inr (
        b,
        bs,
        st.next,
        var.value,
        counter_code st.next var.value,
        insert_code (counter_code st.next var.value) b.instructions,
        e,
        after var.value _ named.0,
        counter_code-IsIncrement st.next var.value,
        insert_code-IsAtTop (counter_code st.next var.value) b.instructions,
        refl,
      );
      mapped = λ a.
          assigned _ f.name var.value st.call_counter_map (after var.value _ named.0)
            (map_keeps st.globals _ st.call_counter_map keeps a);
      has = λ d. counter_there _ f.name var.value st.call_counter_map (after var.value _ named.0);
      had = λ name c.
          counter_kept st.globals _ f.name name var.value st.call_counter_map keeps
            (after var.value _ named.0) c;
    }

step_function :
    (f : Function) (bs : List BasicBlock) (st : CounterState)
    → f.blocks ≡ bs
    → Step f st (elim bs as (λ x. Function × CounterState) [
      | [] ↦ (f, st)
      | b ∷ more ↦ (
        record f {
          blocks =
              record b {
                instructions =
                    insert_code
                      (counter_code st.next
                        (create_global_counter (counter_name f.name) st.globals).value)
                      b.instructions;
              }
              ∷ more;
        },
        count_function f st,
      )
    ])
step_function f [] st e = record {
  keeps = λ k s h. h;
  counted = inl (e, refl);
  mapped = λ a. a;
  has = λ d. absurd (d e);
  had = λ name c. c;
}
step_function f (b ∷ bs) st e = step_definition f b bs st e

step : (f : Function) (st : CounterState) → Step f st (instrument f st)
unfolding instrument
step f st = step_function f f.blocks st refl

IsCounted-later :
    (gs hs : List GlobalVariable) (f g : Function)
    → KeepsNames gs hs
    → IsCounted gs f g
    → IsCounted hs f g
IsCounted-later gs hs f g k (inl p) = inl p
IsCounted-later gs hs f g k (inr (b, bs, n, var, c, w, e, h, inc, top, q)) =
    inr (b, bs, n, var, c, w, e, k var _ h, inc, top, q)

record Steps (fs : List Function) (st : CounterState) (out : List Function × CounterState)
    : Type 0 where
  keeps : KeepsNames st.globals out.1.globals
  counted : AreCounted out.1.globals fs out.0
  mapped :
      IsCounterMap st.globals st.call_counter_map
      → IsCounterMap out.1.globals out.1.call_counter_map
  has : All (λ f. IsDefinition f → HasCounter out.1.globals out.1.call_counter_map f.name) fs
  had :
      (name : String)
      → HasCounter st.globals st.call_counter_map name
      → HasCounter out.1.globals out.1.call_counter_map name

steps : (fs : List Function) (st : CounterState) → Steps fs st (instrument_all fs st)
unfolding instrument_all
steps [] st = record {
  keeps = λ k s h. h;
  counted = _;
  mapped = λ a. a;
  has = _;
  had = λ name c. c;
}
steps (f ∷ fs) st =
    let here = step f st in
    let rest = steps fs (instrument f st).1 in
    record {
      keeps = λ k s h. rest.keeps k s (here.keeps k s h);
      counted = (IsCounted-later _ _ f _ rest.keeps here.counted, rest.counted);
      mapped = λ a. rest.mapped (here.mapped a);
      has = (λ d. rest.had f.name (here.has d), rest.has);
      had = λ name c. rest.had name (here.had name c);
    }

-- After STEP 1 every definition adds one, at the top of its entry block, to the global that is named
-- for it, declarations are as they were, and CallCounterMap has the name of every definition, and for
-- each of its names the global that is named for it.
pub instrument_all-AreCounted :
    (n : ℕ) (gs : List GlobalVariable) (fs : List Function)
    → AreCounted
        (instrument_all fs (counter_start n gs)).1.globals
        fs
        (instrument_all fs (counter_start n gs)).0
      × IsCounterMap
          (instrument_all fs (counter_start n gs)).1.globals
          (instrument_all fs (counter_start n gs)).1.call_counter_map
      × All
          (λ f.
            IsDefinition f
            → HasCounter
                (instrument_all fs (counter_start n gs)).1.globals
                (instrument_all fs (counter_start n gs)).1.call_counter_map
                f.name)
          fs
instrument_all-AreCounted n gs fs =
    let all = steps fs (counter_start n gs) in (all.counted, all.mapped _, all.has)
