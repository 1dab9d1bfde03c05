-- ===== src/DuplicateBb/Clone/Run.antt =====
-- lib/DuplicateBB.cpp, run: what it does to a function, with the result of RIV.
use llvm_tutor.Prelude.{
  ℕ, wrap_unsigned, length, ◌+◌, ◌<◌, ◌≡◌, ◌≢◌, refl, true, some, List, [], ◌∷◌, All, arith,
}
use llvm_tutor.Prelude.Containers.{nat_eq, contains, lookup}
use llvm_tutor.Ir.{
  Value, value_eq, Instruction, BasicBlock, PreservedAnalyses, all_preserved, none_preserved,
}
use llvm_tutor.Ir.Query.{find_block}
use llvm_tutor.Machine.Exec.{Machine, State}
use llvm_tutor.Machine.Flow.{Terminators, IsBranching, exec_flow}
use llvm_tutor.Machine.Flow.Live.{Named, AgreesOn}
use llvm_tutor.Riv.{RivResult}
use llvm_tutor.DuplicateBb.{find_bbs_to_duplicate}
use llvm_tutor.DuplicateBb.Chosen.{IsContext, find_bbs_to_duplicate-All}
use llvm_tutor.DuplicateBb.Clone.{Utils, DupState, clone_all, run}
use llvm_tutor.DuplicateBb.Clone.Documented.{IsDocumented}
use llvm_tutor.DuplicateBb.Clone.Formed.{IsFormed, IsReady}
use llvm_tutor.DuplicateBb.Clone.Sane.{Pending}
use llvm_tutor.DuplicateBb.Clone.All.{clone_all-preserves, clone_all-counts}
use llvm_tutor.DuplicateBb.Clone.Targets.{
  DistinctLabels, find_bbs_to_duplicate-labels, find_bbs_to_duplicate-Distinct,
}

module _ (P : ℕ → Type 0) (n : ℕ) where
  abbrev pub HasReady : BasicBlock → Type 0
  HasReady b = (i : Instruction) × IsReady P n b i

  abbrev FoundReady : List BasicBlock → ℕ → Type 0
  FoundReady bs l =
      (b : BasicBlock) × (i : Instruction) × (find_block l bs ≡ some b) × IsReady P n b i

  FoundReady-behind :
      (b : BasicBlock) (bs cs : List BasicBlock)
      → All (λ c. c.label ≢ b.label) cs
      → All (λ c. FoundReady bs c.label) cs
      → All (λ c. FoundReady (b ∷ bs) c.label) cs
  unfolding find_block
  FoundReady-behind b bs [] d h = tt
  FoundReady-behind b bs (c ∷ cs) d ((e, i, found, ready), more) =
      ((e, i, ground (arith, d.0, found), ready), FoundReady-behind b bs cs d.1 more)

  FoundReady-all :
      (bs : List BasicBlock)
      → DistinctLabels bs
      → All HasReady bs
      → All (λ b. FoundReady bs b.label) bs
  unfolding find_block
  FoundReady-all [] d h = tt
  FoundReady-all (b ∷ bs) d ((i, ready), more) =
      ((b, i, ground arith, ready), FoundReady-behind b bs bs d.0 (FoundReady-all bs d.1 more))

  Pending-all :
      (riv : RivResult) (st : DupState) (ts : List (ℕ × Value))
      → n ≡ st.next_id
      → ((l : ℕ) (v : Value) → contains (lookup l [] riv) v ≡ true → Named P v)
      → All (λ t. FoundReady st.blocks t.0) ts
      → All (IsContext (λ k c. 0) riv) ts
      → All (Pending P st) ts
  Pending-all riv st [] e f h c = tt
  Pending-all riv st ((l, v) ∷ ts) e f (h, hs) (c, cs) =
      ((f l v c.0, rw (← e) h), Pending-all riv st ts e f hs cs)

abbrev start : ℕ → ℕ → ℕ → List BasicBlock → DupState
start next_label next_id count bs = record {
  blocks = bs;
  next_label = next_label;
  next_id = next_id;
  re_mapper = [];
  duplicate_bb_count = count;
}

-- The chosen blocks can be cloned, with their context values.
chosen-Pending :
    (draw : ℕ → ℕ → ℕ) (riv : RivResult) (P : ℕ → Type 0) (next_label next_id count : ℕ)
    (bs : List BasicBlock)
    → All (HasReady P next_id) bs
    → DistinctLabels bs
    → ((l : ℕ) (v : Value) → contains (lookup l [] riv) v ≡ true → Named P v)
    → All (Pending P (start next_label next_id count bs)) (find_bbs_to_duplicate draw riv 0 bs)
chosen-Pending draw riv P next_label next_id count bs ready distinct known =
    Pending-all P next_id riv (start next_label next_id count bs)
      (find_bbs_to_duplicate draw riv 0 bs) refl known
      (find_bbs_to_duplicate-labels draw riv (FoundReady P next_id bs) 0 bs
        (FoundReady-all P next_id bs distinct ready))
      (find_bbs_to_duplicate-All draw riv 0 bs)

-- DuplicateBB::run preserves what a function does. The branches of the target machine only choose
-- among their blocks, SplitBlockAndInsertIfThenElse and CreateIsNull do what LLVM documents, the
-- blocks have different labels and are formed as in valid IR with respect to the registers P that
-- operands name, which lie below the next unused number, every block can be cloned (it has a
-- terminator, its instructions are numbered below the next unused number, and no operand may name
-- an instruction without a value), and P has all registers in the result of RIV. Then, whatever
-- numbers are drawn, a run that ends, from a block x that is entered from no block of the function,
-- has a counterpart in the new function from the same state, and the final states have the same
-- world and the same values in P.
pub run-preserves :
    {W : Type 0} (m : Machine W) (leave : Terminators W)
    → IsBranching leave
    → (u : Utils) → IsDocumented m u
    → (draw : ℕ → ℕ → ℕ) (riv : RivResult) (P : ℕ → Type 0) (next_label next_id count : ℕ)
      (bs : List BasicBlock)
    → ((j : ℕ) → P j → j < next_id)
    → All (IsFormed P next_label) bs
    → All (HasReady P next_id) bs
    → DistinctLabels bs
    → ((l : ℕ) (v : Value) → contains (lookup l [] riv) v ≡ true → Named P v)
    → (fuel x from : ℕ) (s r : State W) → from < next_label
    → All (λ b. b.label ≢ from) bs
    → exec_flow m leave fuel bs from x s ≡ some r
    → (fuel' : ℕ) × (r' : State W) × (exec_flow m leave fuel'
          (run u draw riv next_label next_id count bs).0.blocks
          from
          x
          s
        ≡ some r')
      × AgreesOn P r r'
unfolding run lookup
run-preserves m leave branching u doc draw riv P next_label next_id count bs bound formed ready
      distinct known fuel x from s r f outside ran =
    clone_all-preserves m leave branching u doc (find_bbs_to_duplicate draw riv 0 bs) P
      (start next_label next_id count bs)
      (record { bound = bound; formed = formed; same_values = λ v. refl })
      (chosen-Pending draw riv P next_label next_id count bs ready distinct known)
      (find_bbs_to_duplicate-Distinct draw riv 0 bs distinct) fuel x from s r f
      (find_bbs_to_duplicate-labels draw riv (λ l. l ≢ from) 0 bs outside) ran

-- Under the same conditions on the blocks, DuplicateBBCount, a 32-bit number, grows by the number of
-- chosen blocks: all of them are cloned.
pub run-counts :
    {W : Type 0} (m : Machine W) (u : Utils)
    → IsDocumented m u
    → (draw : ℕ → ℕ → ℕ) (riv : RivResult) (P : ℕ → Type 0) (next_label next_id count : ℕ)
      (bs : List BasicBlock)
    → ((j : ℕ) → P j → j < next_id)
    → All (IsFormed P next_label) bs
    → All (HasReady P next_id) bs
    → DistinctLabels bs
    → ((l : ℕ) (v : Value) → contains (lookup l [] riv) v ≡ true → Named P v)
    → count < 4294967296
    → (run u draw riv next_label next_id count bs).0.duplicate_bb_count
      ≡ wrap_unsigned (count + length (find_bbs_to_duplicate draw riv 0 bs))
unfolding run lookup
run-counts m u doc draw riv P next_label next_id count bs bound formed ready distinct known small =
    clone_all-counts m u doc (find_bbs_to_duplicate draw riv 0 bs) P
      (start next_label next_id count bs)
      (record { bound = bound; formed = formed; same_values = λ v. refl })
      (chosen-Pending draw riv P next_label next_id count bs ready distinct known)
      (find_bbs_to_duplicate-Distinct draw riv 0 bs distinct) small

all_preserved-chosen :
    (ts : List (ℕ × Value))
    → (elim ts as (λ x. PreservedAnalyses) [ [] ↦ all_preserved | t ∷ ts ↦ none_preserved ])
      ≡ all_preserved
    → ts ≡ []
all_preserved-chosen [] h = refl
all_preserved-chosen (t ∷ ts) h = absurd (ground (arith, h))

-- Where run claims to preserve all analyses, it has left the function as it was.
pub run-unchanged :
    (u : Utils) (draw : ℕ → ℕ → ℕ) (riv : RivResult) (next_label next_id count : ℕ)
    (bs : List BasicBlock)
    → (run u draw riv next_label next_id count bs).1 ≡ all_preserved
    → ((run u draw riv next_label next_id count bs).0.blocks ≡ bs)
      × ((run u draw riv next_label next_id count bs).0.duplicate_bb_count ≡ count)
unfolding run clone_all
run-unchanged u draw riv next_label next_id count bs h =
    let none_chosen = all_preserved-chosen (find_bbs_to_duplicate draw riv 0 bs) h in
    rw none_chosen (refl, refl)
