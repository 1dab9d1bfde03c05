-- ===== src/Riv/Defined.antt =====
-- What STEP 1 and STEP 2 of RIV collect: the integer instructions of each block, and the integer
-- globals and arguments.
use llvm_tutor.Prelude.{
  ℕ, zero, suc, ◌+◌, ◌≤◌, ◌==◌, ◌≡◌, refl, ap, ◌∙◌, Bool, false, ◌||◌, ◌&&◌, List, [], ◌∷◌, arith,
}
use llvm_tutor.Prelude.Containers.{
  nat_eq, contains, insert, modify, lookup, contains-insert, lookup-modify,
}
use llvm_tutor.Ir.{
  Value, value_eq, same_value, argument, global, instruction, Ty, is_integer_ty, Instruction,
  BasicBlock, GlobalVariable,
}
use llvm_tutor.Riv.{
  RivResult, insert_defined, defined_values, insert_globals, insert_args, entry_values,
}
use llvm_tutor.Riv.Step.{member}

-- v is an integer instruction of the list.
unfoldable pub block_defines : List Instruction → Value → Bool
block_defines [] v = false
block_defines (i ∷ is) v =
    (is_integer_ty i.ty && same_value (instruction i.id) v) || block_defines is v

-- v is an integer instruction of block l.
unfoldable pub defines : List BasicBlock → ℕ → Value → Bool
unfolding block_defines
defines [] l v = false
defines (b ∷ bs) l v = (b.label == l && block_defines b.instructions v) || defines bs l v

contains-insert_defined :
    (is : List Instruction) (s : List Value) (v : Value)
    → contains (insert_defined is s) v ≡ (block_defines is v || contains s v)
unfolding insert_defined block_defines
contains-insert_defined [] s v = refl
contains-insert_defined (i ∷ is) s v = ground (
  arith,
  contains-insert_defined is s v,
  contains-insert_defined is (insert (instruction i.id) s) v,
  contains-insert (instruction i.id) v s,
)

pub member-defined_values :
    (bs : List BasicBlock) (m : RivResult) (l : ℕ) (v : Value)
    → member (defined_values bs m) l v ≡ (defines bs l v || member m l v)
unfolding defined_values defines
member-defined_values [] m l v = refl
member-defined_values (b ∷ bs) m l v = ground (
  arith,
  member-defined_values bs (modify b.label [] (insert_defined b.instructions) m) l v,
  lookup-modify b.label l [] (insert_defined b.instructions) m,
  contains-insert_defined b.instructions (lookup b.label [] m) v,
)

-- The global, or the argument, with that number is an integer.
unfoldable pub integer_global : List GlobalVariable → ℕ → Bool
integer_global [] j = false
integer_global (g ∷ gs) zero = is_integer_ty g.value_ty
integer_global (g ∷ gs) (suc j) = integer_global gs j

unfoldable pub integer_arg : List Ty → ℕ → Bool
integer_arg [] j = false
integer_arg (t ∷ ts) zero = is_integer_ty t
integer_arg (t ∷ ts) (suc j) = integer_arg ts j

unfoldable pub is_entry_value : List GlobalVariable → List Ty → Value → Bool
unfolding integer_global integer_arg
is_entry_value gs args (global j) = integer_global gs j
is_entry_value gs args (argument j) = integer_arg args j
is_entry_value gs args _ = false

or_false : (a : Bool) → (a || false) ≡ a
or_false a = ground arith

same_global : (i j : ℕ) → same_value (global i) (global j) ≡ (i == j)
unfolding same_value
same_global i j = refl

same_argument : (i j : ℕ) → same_value (argument i) (argument j) ≡ (i == j)
unfolding same_value
same_argument i j = refl

-- Another value than a global is not touched by the globals, nor is a global that came before.
globals-keep :
    (k : ℕ) (gs : List GlobalVariable) (s : List Value) (v : Value)
    → ((j : ℕ) → k ≤ j → same_value (global j) v ≡ false)
    → contains (insert_globals k gs s) v ≡ contains s v
unfolding insert_globals
globals-keep k [] s v h = refl
globals-keep k (g ∷ gs) s v h = ground (
  arith,
  h k (omega arith),
  globals-keep (suc k) gs s v (λ j l. h j (omega arith)),
  globals-keep (suc k) gs (insert (global k) s) v (λ j l. h j (omega arith)),
  contains-insert (global k) v s,
)

args-keep :
    (k : ℕ) (ts : List Ty) (s : List Value) (v : Value)
    → ((j : ℕ) → k ≤ j → same_value (argument j) v ≡ false)
    → contains (insert_args k ts s) v ≡ contains s v
unfolding insert_args
args-keep k [] s v h = refl
args-keep k (t ∷ ts) s v h = ground (
  arith,
  h k (omega arith),
  args-keep (suc k) ts s v (λ j l. h j (omega arith)),
  args-keep (suc k) ts (insert (argument k) s) v (λ j l. h j (omega arith)),
  contains-insert (argument k) v s,
)

globals-reach :
    (gs : List GlobalVariable) (k i j : ℕ) (s : List Value)
    → i ≡ k + j
    → contains (insert_globals k gs s) (global i) ≡ (integer_global gs j || contains s (global i))
unfolding insert_globals integer_global
globals-reach [] k i j s e = refl
globals-reach (g ∷ gs) k i zero s e =
    let keeps = λ (t : List Value).
      globals-keep (suc k) gs t (global i) (λ x l. same_global x i ∙ ground arith) in
    ground (
      arith,
      keeps s,
      keeps (insert (global k) s),
      contains-insert (global k) (global i) s,
      same_global k i,
    )
globals-reach (g ∷ gs) k i (suc j) s e = ground (
  arith,
  globals-reach gs (suc k) i j s,
  globals-reach gs (suc k) i j (insert (global k) s),
  contains-insert (global k) (global i) s,
  same_global k i,
)

args-reach :
    (ts : List Ty) (k i j : ℕ) (s : List Value)
    → i ≡ k + j
    → contains (insert_args k ts s) (argument i) ≡ (integer_arg ts j || contains s (argument i))
unfolding insert_args integer_arg
args-reach [] k i j s e = refl
args-reach (t ∷ ts) k i zero s e =
    let keeps = λ (r : List Value).
      args-keep (suc k) ts r (argument i) (λ x l. same_argument x i ∙ ground arith) in
    ground (
      arith,
      keeps s,
      keeps (insert (argument k) s),
      contains-insert (argument k) (argument i) s,
      same_argument k i,
    )
args-reach (t ∷ ts) k i (suc j) s e = ground (
  arith,
  args-reach ts (suc k) i j s,
  args-reach ts (suc k) i j (insert (argument k) s),
  contains-insert (argument k) (argument i) s,
  same_argument k i,
)

-- STEP 2 collects the integer globals and the integer arguments, and nothing else.
pub contains-entry_values :
    (gs : List GlobalVariable) (args : List Ty) (v : Value)
    → contains (entry_values gs args) v ≡ is_entry_value gs args v
unfolding entry_values is_entry_value contains same_value
contains-entry_values gs args (global j) =
    args-keep 0 args _ (global j) (λ i l. refl)
    ∙ globals-reach gs 0 j j [] (omega arith)
    ∙ or_false _
contains-entry_values gs args (argument j) =
    args-reach args 0 j j _ (omega arith)
    ∙ ap (λ b. integer_arg args j || b) (globals-keep 0 gs [] (argument j) (λ i l. refl))
    ∙ or_false _
contains-entry_values gs args v =
    args-keep 0 args _ v (λ i l. refl) ∙ globals-keep 0 gs [] v (λ i l. refl)
