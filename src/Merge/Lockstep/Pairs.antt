-- ===== src/Merge/Lockstep/Pairs.antt =====
-- What the walk in lockstep decides: that the instructions of the two blocks, debug instructions and
-- terminators left out, are mergeable pair by pair from the end.
use mathlib.Core.List.{reverse, reverse_aux}
use llvm_tutor.Prelude.{
  ℕ, zero, suc, ◌+◌, ◌≤◌, ◌≡◌, refl, ap, sym, ◌∙◌, Bool, true, false, ◌&&◌, inl, inr, List, [], ◌∷◌,
  if◌then◌else◌, length, arith, Bool-cases,
}
use llvm_tutor.Ir.{Instruction}
use llvm_tutor.Ir.Query.{is_dbg}
use llvm_tutor.Merge.Lockstep.{
  LockstepReverseIterator, skip_dbg, prev_non_dbg, get_last_non_dbg_inst, is_null, lockstep_start,
  lockstep_prev, lockstep_loop, no_mismatch,
}

unfoldable pub non_dbg : List Instruction → List Instruction
non_dbg [] = []
non_dbg (i ∷ is) = if is_dbg i.opcode then non_dbg is else i ∷ non_dbg is

abbrev drop_first : List Instruction → List Instruction
drop_first [] = []
drop_first (i ∷ is) = is

-- The instructions before the terminator, from the last, without debug instructions.
unfoldable pub body_reversed : List Instruction → List Instruction
unfolding non_dbg
body_reversed is = non_dbg (drop_first (reverse is))

-- Pair by pair, as far as both lists go.
unfoldable pub all_pairs :
    (Instruction → Instruction → Bool) → List Instruction → List Instruction → Bool
all_pairs f [] ys = true
all_pairs f (x ∷ xs) [] = true
all_pairs f (x ∷ xs) (y ∷ ys) = f x y && all_pairs f xs ys

data Skipped (xs : List Instruction) : Type 0 where
  nothing : skip_dbg xs ≡ [] → non_dbg xs ≡ [] → Skipped xs
  found :
      (i : Instruction) (is : List Instruction)
      → skip_dbg xs ≡ i ∷ is
      → non_dbg xs ≡ i ∷ non_dbg is
      → suc (length is) ≤ length xs
      → Skipped xs

skip_view : (xs : List Instruction) → Skipped xs
unfolding skip_dbg non_dbg
skip_view [] = nothing refl refl
skip_view (i ∷ is) = elim (Bool-cases (is_dbg i.opcode)) [
  | inl dbg ↦ elim (skip_view is) [
    | nothing p q ↦ nothing (rw dbg p) (rw dbg q)
    | found j js p q r ↦ found j js (rw dbg p) (rw dbg q) (omega arith)
  ]
  | inr real ↦ found i is (rw real refl) (rw real refl) (omega arith)
]

module _ (f : Instruction → Instruction → Bool) where
  loop_failed :
      (fuel : ℕ) (it : LockstepReverseIterator)
      → it.fail ≡ true
      → (lockstep_loop f fuel it).fail ≡ true
  unfolding lockstep_loop
  loop_failed zero it h = h
  loop_failed (suc fuel) it h = ground arith

  abbrev at : List Instruction → List Instruction → LockstepReverseIterator
  at xs ys = record {
    insts1 = skip_dbg xs;
    insts2 = skip_dbg ys;
    fail = if is_null (skip_dbg xs) then true else is_null (skip_dbg ys);
  }

  -- A step leads to the same end, whether or not the second pointer still moved.
  prev_at :
      (fuel : ℕ) (i j : Instruction) (is js : List Instruction)
      → (lockstep_loop f fuel
          (lockstep_prev (record { insts1 = i ∷ is; insts2 = j ∷ js; fail = false }))).fail
        ≡ (lockstep_loop f fuel (at is js)).fail
  unfolding lockstep_prev
  prev_at fuel i j is js = elim (Bool-cases (is_null (skip_dbg is))) [
    | inl gone ↦
        loop_failed fuel _ (ground (arith, gone))
        ∙ sym (loop_failed fuel (at is js) (ground (arith, gone)))
    | inr more ↦ rw more refl
  ]

  loop_found :
      (fuel : ℕ) (i j : Instruction) (is js : List Instruction) (b : Bool)
      → (lockstep_loop f fuel (at is js)).fail ≡ b
      → (lockstep_loop f
          (suc fuel)
          (record { insts1 = i ∷ is; insts2 = j ∷ js; fail = false })).fail
        ≡ (f i j && b)
  unfolding lockstep_loop
  loop_found fuel i j is js b e = elim (Bool-cases (f i j)) [
    | inl good ↦ rw good (prev_at fuel i j is js ∙ e)
    | inr bad ↦ rw bad refl
  ]

  loop_pairs :
      (fuel : ℕ) (xs ys : List Instruction)
      → length xs ≤ fuel
      → (lockstep_loop f fuel (at xs ys)).fail ≡ all_pairs f (non_dbg xs) (non_dbg ys)
  unfolding all_pairs
  loop_pairs zero [] ys h = unfold lockstep_loop skip_dbg non_dbg in refl
  loop_pairs zero (x ∷ xs) ys h = absurd (omega arith)
  loop_pairs (suc fuel) xs ys h = elim (skip_view xs) [
    | nothing p q ↦ rw (p, q) (loop_failed (suc fuel) _ refl)
    | found i is p q r ↦ elim (skip_view ys) [
      | nothing p' q' ↦ rw (p, q, p', q') (loop_failed (suc fuel) _ refl)
      | found j js p' q' r' ↦
          rw (p, q, p', q') (loop_found fuel i j is js _ (loop_pairs fuel is js (omega arith)))
    ]
  ]

length-reverse_aux : (xs ys : List Instruction) → length (reverse_aux xs ys) ≡ length xs + length ys
length-reverse_aux [] ys = omega arith
length-reverse_aux (x ∷ xs) ys = omega (arith, length-reverse_aux xs (x ∷ ys))

reversed_cases :
    (f : Instruction → Instruction → Bool) (fuel : ℕ) (xs ys : List Instruction)
    → length xs ≤ fuel
    → (lockstep_loop f fuel (at f (drop_first xs) (drop_first ys))).fail
      ≡ all_pairs f (non_dbg (drop_first xs)) (non_dbg (drop_first ys))
reversed_cases f fuel [] ys h = loop_pairs f fuel [] (drop_first ys) h
reversed_cases f fuel (x ∷ xs) ys h = loop_pairs f fuel xs (drop_first ys) (omega arith)

start-at : (xs : List Instruction) → prev_non_dbg xs ≡ skip_dbg (drop_first xs)
unfolding prev_non_dbg skip_dbg
start-at [] = refl
start-at (x ∷ xs) = refl

unfoldable begin : List Instruction → List Instruction → LockstepReverseIterator
begin p q = record { insts1 = p; insts2 = q; fail = if is_null p then true else is_null q }

lockstep_start-eq :
    (f : Instruction → Instruction → Bool) (b1 b2 : List Instruction)
    → lockstep_start b1 b2 ≡ at f (drop_first (reverse b1)) (drop_first (reverse b2))
unfolding lockstep_start get_last_non_dbg_inst begin
lockstep_start-eq f b1 b2 = λ i. begin (start-at (reverse b1) i) (start-at (reverse b2) i)

-- The loop over both blocks finds no mismatch exactly when all pairs, from the end, are mergeable.
pub no_mismatch-eq :
    (f : Instruction → Instruction → Bool) (b1 b2 : List Instruction)
    → no_mismatch f b1 b2 ≡ all_pairs f (body_reversed b1) (body_reversed b2)
unfolding no_mismatch body_reversed
no_mismatch-eq f b1 b2 =
    ap (λ it. (lockstep_loop f (length b1) it).fail) (lockstep_start-eq f b1 b2)
    ∙ reversed_cases f (length b1) (reverse b1) (reverse b2)
        (omega (arith, length-reverse_aux b1 []))
