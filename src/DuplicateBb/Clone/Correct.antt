-- ===== src/DuplicateBb/Clone/Correct.antt =====
-- The function that cloneBB leaves does what the function did.
use llvm_tutor.Prelude.{
  ℕ, zero, suc, ◌+◌, ◌*◌, ◌==◌, ◌≤◌, ◌<◌, ◌≡◌, ◌≢◌, refl, sym, ap, ◌∙◌, inl, inr, Option, none,
  some, List, [], ◌∷◌, All, map, arith, Bool-cases, Option-cases,
}
use llvm_tutor.Ir.{Value, Instruction, BasicBlock}
use llvm_tutor.Ir.Query.{find_block}
use llvm_tutor.Machine.Exec.{Machine, State}
use llvm_tutor.Machine.Flow.{Terminators, Exit, IsBranching, run_block, go_on, exec_flow}
use llvm_tutor.Machine.Flow.Live.{AgreesOn, SameExit, exec_flow-next}
use llvm_tutor.DuplicateBb.Clone.{Utils, DupState, splice, clone_found, clone_bb}
use llvm_tutor.DuplicateBb.Clone.Documented.{move, move_block, IsDocumented}
use llvm_tutor.DuplicateBb.Clone.Blocks.{move_found, find_block-splice_other, find_block-splice_new}
use llvm_tutor.DuplicateBb.Clone.Shape.{
  null_test, head_block, clone_block, tail_block, four_blocks, clone_found-blocks,
}
use llvm_tutor.DuplicateBb.Clone.Formed.{IsFormed, IsReady}
use llvm_tutor.DuplicateBb.Clone.Other.{run_block-last, run_other}
use llvm_tutor.DuplicateBb.Clone.Steps.{run_split}

pub find_block-All :
    (Q : BasicBlock → Type 0) (k : ℕ) (bs : List BasicBlock) (b : BasicBlock)
    → All Q bs
    → find_block k bs ≡ some b
    → Q b × (b.label ≡ k)
unfolding find_block
find_block-All Q k [] b h e = absurd (ground (arith, e))
find_block-All Q k (c ∷ cs) b h e = elim (Bool-cases (c.label == k)) [
  | inl v ↦ let same : c ≡ b = ground (arith, e, v) in rw (← same) (h.0, ground (arith, v))
  | inr v ↦ find_block-All Q k cs b h.1 (ground (arith, e, v))
]

labels-All :
    (P : ℕ → Type 0) (n : ℕ) (bs : List BasicBlock)
    → All (IsFormed P n) bs
    → All (λ b. b.label < n) bs
labels-All P n [] h = tt
labels-All P n (b ∷ bs) h = (h.0.label_below, labels-All P n bs h.1)

module _ {W : Type 0} (m : Machine W) (leave : Terminators W) (P : ℕ → Type 0)
    (old new : List BasicBlock) where
  -- With at most `budget` steps, the new function ends in a state that agrees with r.
  abbrev Ends : ℕ → (ℕ → Option (State W)) → State W → Type 0
  Ends budget go r =
      (fuel : ℕ) × (r' : State W) × (fuel ≤ budget) × (go fuel ≡ some r') × AgreesOn P r r'

  -- From exits to the same block on, if the functions agree from every block on.
  carry :
      (fuel x y : ℕ) (o : Option ℕ) (d e : Exit W) (r : State W)
      → d.target ≡ o
      → SameExit m P leave d e
      → go_on m leave (exec_flow m leave fuel old x) (some d) ≡ some r
      → ((l : ℕ) (s t : State W)
          → AgreesOn P s t
          → exec_flow m leave fuel old x l s ≡ some r
          → Ends (3 * fuel) (λ k. exec_flow m leave k new y l t) r)
      → Ends (3 * fuel) (λ k. go_on m leave (exec_flow m leave k new y) (some e)) r
  carry fuel x y none d e r o same ran more =
      let target : e.target ≡ none = sym same.targets ∙ o in
      let ended : d.state ≡ r = ground (arith, ran, o) in
      (0, e.state, omega arith, rw target refl, rw (← ended) same.states)
  carry fuel x y (some l) d e r o same ran more =
      let target : e.target ≡ some l = sym same.targets ∙ o in
      let rest = more l d.state e.state same.states (ground (arith, ran, o)) in
      (rest.0, rest.1, rest.2, rw target rest.3, rest.4)

module _ {W : Type 0} (m : Machine W) (leave : Terminators W) (branching : IsBranching leave)
    (u : Utils) (doc : IsDocumented m u) (P : ℕ → Type 0) (context : Value) (st : DupState)
    (bound : (j : ℕ) → P j → j < st.next_id) (formed : All (IsFormed P st.next_label) st.blocks)
    (b : BasicBlock) (i : Instruction) (b_found : find_block b.label st.blocks ≡ some b)
    (ready : IsReady P st.next_id b i) where
  abbrev next : ℕ
  next = st.next_label

  abbrev split_blocks : List BasicBlock
  split_blocks =
      splice b.label (four_blocks b (null_test u context st) next i)
        (map (move_block b.label (next + 2)) st.blocks)

  abbrev Goal : ℕ → ℕ → ℕ → State W → State W → Type 0
  Goal fuel from x t r =
      Ends m leave P st.blocks split_blocks (3 * fuel)
        (λ k. exec_flow m leave k split_blocks (move b.label (next + 2) from) x t) r

  -- All runs of a length, from every block.
  abbrev Simulates : ℕ → Type 0
  Simulates fuel =
      (x from : ℕ) (s t r : State W)
      → from < next
      → AgreesOn P s t
      → exec_flow m leave fuel st.blocks from x s ≡ some r
      → Goal fuel from x t r

  from_moved :
      (fuel from x y : ℕ) (t r : State W)
      → move b.label (next + 2) from ≡ y
      → Goal fuel from x t r
      → Ends m leave P st.blocks split_blocks
          (3 * fuel)
          (λ k. exec_flow m leave k split_blocks y x t)
          r
  from_moved fuel from x y t r e g = rw (← e) g

  step_split :
      (fuel from : ℕ) (s t r : State W)
      → Simulates fuel
      → from < next
      → AgreesOn P s t
      → exec_flow m leave (suc fuel) st.blocks from b.label s ≡ some r
      → Goal (suc fuel) from b.label t r
  step_split fuel from s t r rest f a ran =
      let c = null_test u context st in
      let here = (find_block-All (IsFormed P next) b.label st.blocks b formed b_found).0 in
      let blocks =
        find_block-splice_new b.label next (head_block b c next)
          (clone_block b c next 0 next (c.next + 1))
          (clone_block b c next 1 (next + 1) (c.next + 2)) (tail_block b c next i) b st.blocks
          (refl, refl, refl, refl) (labels-All P next st.blocks formed) b_found in
      let three =
        run_split m leave branching P st.next_id bound b c next i split_blocks here
          (doc.is_null_next _ _) ready blocks.3 from s t f (doc.is_null_plain _ _)
          (doc.is_null_value _ _) (doc.is_null_keeps _ _) blocks.0 blocks.1 blocks.2 a in
      let exits =
        sym (
          exec_flow-next m leave fuel from b.label st.blocks b s _ b_found
            (run_block-last m leave from b i s ready.terminated))
        ∙ ran in
      let to_tail : move b.label (next + 2) b.label ≡ next + 2 = ground arith in
      let more =
        carry m leave P st.blocks split_blocks fuel b.label (next + 2) _ _ three.0 r refl three.2
          exits
          (λ l s' t' a' e.
            from_moved fuel b.label l (next + 2) t' r to_tail
              (rest l b.label s' t' r here.label_below a' e)) in
      (suc (suc (suc more.0)), more.1, omega (arith, more.2), three.1 more.0 ∙ more.3, more.4)

  step_other :
      (fuel x from : ℕ) (s t r : State W)
      → x ≢ b.label
      → Simulates fuel
      → from < next
      → AgreesOn P s t
      → exec_flow m leave (suc fuel) st.blocks from x s ≡ some r
      → Goal (suc fuel) from x t r
  unfolding exec_flow
  step_other fuel x from s t r other rest f a ran = elim (Option-cases (find_block x st.blocks)) [
    | inl none_found ↦ absurd (ground (arith, ran, none_found))
    | inr (c, found) ↦ elim (Option-cases (run_block m leave from c s)) [
      | inl stuck ↦ absurd (ground (arith, ran, found, stuck))
      | inr (d, ends) ↦
          let here = find_block-All (IsFormed P next) x st.blocks c formed found in
          let below : x < next = omega (arith, here.0.label_below, here.1) in
          let e = null_test u context st in
          let moved_found =
            find_block-splice_other b.label next (head_block b e next)
              (clone_block b e next 0 next (e.next + 1))
              (clone_block b e next 1 (next + 1) (e.next + 2)) (tail_block b e next i) x st.blocks
              (refl, refl, refl, refl) other below
            ∙ ap (move_found b.label (next + 2)) found in
          let once = run_other m leave P b.label next from c s t d here.0 f a ends in
          let exits = sym (exec_flow-next m leave fuel from x st.blocks c s d found ends) ∙ ran in
          let stays : move b.label (next + 2) x ≡ x = ground (arith, other) in
          let more =
            carry m leave P st.blocks split_blocks fuel x x d.target d once.0 r refl once.2 exits
              (λ l s' t' a' g. from_moved fuel x l x t' r stays (rest l x s' t' r below a' g)) in
          (
            suc more.0,
            more.1,
            omega (arith, more.2),
            exec_flow-next m leave more.0 (move b.label (next + 2) from) x split_blocks _ t once.0
                  moved_found once.1
                ∙ more.3,
            more.4,
          )
    ]
  ]

  simulates : (fuel : ℕ) → Simulates fuel
  unfolding exec_flow
  simulates zero x from s t r f a ran = absurd (ground (arith, ran))
  simulates (suc fuel) x from s t r f a ran = elim (Bool-cases (x == b.label)) [
    | inl v ↦
        let same : x ≡ b.label = ground (arith, v) in
        rw same (step_split fuel from s t r (simulates fuel) f a (rw (← same) ran))
    | inr v ↦ step_other fuel x from s t r (ground (arith, v)) (simulates fuel) f a ran
  ]

pub clone_bb-found :
    (u : Utils) (l : ℕ) (context : Value) (st : DupState) (b : BasicBlock)
    → find_block l st.blocks ≡ some b
    → clone_bb u l context st ≡ clone_found u b context st
unfolding clone_bb
clone_bb-found u l context st b h = ground (arith, h)

-- Cloning a block preserves what the function does. The branches of the target machine only choose
-- among their blocks, SplitBlockAndInsertIfThenElse and CreateIsNull do what LLVM documents, the
-- blocks are formed as in valid IR with respect to the registers P that operands name, which lie
-- below the next unused number, and the block b, with the label l, has a terminator. Then a run
-- that ends, from a block x that is entered from `from`, has a counterpart in the new function with
-- at most three times as many steps, from every state with the same world and the same values in
-- P, and the final states have the same world and the same values in P again. What left b before
-- leaves the tail now.
pub clone_bb-preserves :
    {W : Type 0} (m : Machine W) (leave : Terminators W)
    → IsBranching leave
    → (u : Utils) → IsDocumented m u
    → (P : ℕ → Type 0) (context : Value) (st : DupState) → ((j : ℕ) → P j → j < st.next_id)
    → All (IsFormed P st.next_label) st.blocks
    → (l : ℕ) (b : BasicBlock) (i : Instruction) → find_block l st.blocks ≡ some b
    → IsReady P st.next_id b i
    → (fuel x from : ℕ) (s t r : State W) → from < st.next_label
    → AgreesOn P s t
    → exec_flow m leave fuel st.blocks from x s ≡ some r
    → (fuel' : ℕ) × (r' : State W) × (fuel' ≤ 3 * fuel)
      × (exec_flow m leave fuel'
            (clone_bb u l context st).blocks
            (move l (st.next_label + 2) from)
            x
            t
          ≡ some r')
      × AgreesOn P r r'
clone_bb-preserves m leave branching u doc P context st bound formed l b i found ready fuel x from s
      t r f a ran =
    let label = (find_block-All (IsFormed P st.next_label) l st.blocks b formed found).1 in
    let blocks =
      ap (λ d. d.blocks) (clone_bb-found u l context st b found)
      ∙ clone_found-blocks m u b context st i doc ready.terminated in
    rw (blocks, ← label)
      (simulates m leave branching u doc P context st bound formed b i
        (ap (λ k. find_block k st.blocks) label ∙ found) ready fuel x from s t r f a ran)
