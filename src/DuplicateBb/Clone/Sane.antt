-- ===== src/DuplicateBb/Clone/Sane.antt =====
-- What cloneBB relies on, as an invariant of its calls: the state is sane, and the blocks that are
-- still to be cloned are ready.
use llvm_tutor.Prelude.{
  ℕ, Bool, ◌+◌, ◌*◌, ◌≤◌, ◌<◌, ◌≡◌, ◌≢◌, refl, sym, ap, ◌∙◌, true, false, if◌then◌else◌, inl, inr,
  some, List, [], ◌∷◌, ◌++◌, length, map, All, arith,
}
use llvm_tutor.Prelude.Containers.{lookup, modify, find-modify}
use llvm_tutor.Ir.{Value, value_eq, same_value_iff, instruction, Instruction, BasicBlock}
use llvm_tutor.Ir.Query.{find_block}
use llvm_tutor.Machine.Exec.{Machine}
use llvm_tutor.Machine.Flow.{take_phis, drop_phis}
use llvm_tutor.Machine.Flow.Live.{Named}
use llvm_tutor.DuplicateBb.Clone.{
  is_void_ty, VMap, ValueToPhiMap, Utils, DupState, clone_insts, clone_found, clone_bb, splice,
}
use llvm_tutor.DuplicateBb.Clone.Documented.{move_block, IsDocumented}
use llvm_tutor.DuplicateBb.Clone.Blocks.{move_found, find_block-splice_other}
use llvm_tutor.DuplicateBb.Clone.Shape.{
  null_test, body, head_block, clone_block, tail_block, four_blocks, clone_found-blocks,
}
use llvm_tutor.DuplicateBb.Clone.Formed.{IsFormed, IsReady, HasNoUse}
use llvm_tutor.DuplicateBb.Clone.Correct.{find_block-All, clone_bb-found}
use llvm_tutor.DuplicateBb.Clone.Again.{
  clone_insts-next, Named-keep, All-moved, All-splice, drop_phis-map,
}
use llvm_tutor.DuplicateBb.Clone.Kept.{Grown, map-move_IsFormed, four_blocks-IsFormed}

-- A PHI node has the number of the instruction that it stands for.
abbrev pub SameValues : ValueToPhiMap → Type 0
SameValues rm = (v : Value) → lookup v v rm ≡ v

unless_void-SameValues :
    (i : Instruction) (x : Bool) (rm : ValueToPhiMap)
    → SameValues rm
    → SameValues (
        if x then rm else modify (instruction i.id) (instruction i.id) (λ old. instruction i.id) rm)
unfolding lookup
unless_void-SameValues i true rm h v = h v
unless_void-SameValues i false rm h v = ground (
  arith,
  h v,
  find-modify (instruction i.id) v (instruction i.id) (λ old. instruction i.id) rm,
  same_value_iff (instruction i.id) v,
)

clone_insts-SameValues :
    (t e k : ℕ) (tm em lm : VMap) (rm : ValueToPhiMap) (is : List Instruction)
    → SameValues rm
    → SameValues (clone_insts t e k tm em lm rm is).re_mapper
unfolding clone_insts
clone_insts-SameValues t e k tm em lm rm [] h = h
clone_insts-SameValues t e k tm em lm rm (i ∷ []) h = h
clone_insts-SameValues t e k tm em lm rm (i ∷ j ∷ is) h =
    clone_insts-SameValues t e (k + 2) _ _ _ _ (j ∷ is)
      (unless_void-SameValues i (is_void_ty i.ty) rm h)

All-known :
    (n k : ℕ) (is : List Instruction) → n ≤ k → All (λ i. i.id < n) is → All (λ i. i.id < k) is
All-known n k [] h x = tt
All-known n k (i ∷ is) h x = (omega (arith, x.0), All-known n k is h x.1)

-- The fresh numbers are none of those that were known.
All-HasNoUse :
    (P : ℕ → Type 0) (n k : ℕ) (is : List Instruction)
    → All (λ i. i.id < n) is
    → All (HasNoUse P) is
    → All (HasNoUse (Grown P n k)) is
All-HasNoUse P n k [] x h = tt
All-HasNoUse P n k (i ∷ is) x h = (
  λ v q. elim q [ inl p ↦ h.0 v p | inr (y, z) ↦ omega (arith, y, x.0) ],
  All-HasNoUse P n k is x.1 h.1,
)

-- What cloneBB relies on.
pub record IsSane (P : ℕ → Type 0) (st : DupState) : Type 0 where
  pub bound : (j : ℕ) → P j → j < st.next_id
  pub formed : All (IsFormed P st.next_label) st.blocks
  pub same_values : SameValues st.re_mapper

-- The block can be cloned, and the operands may name the context value.
abbrev pub Pending : (ℕ → Type 0) → DupState → ℕ × Value → Type 0
Pending P st (l, v) =
    Named P v
    × ((b : BasicBlock) × (i : Instruction) × (find_block l st.blocks ≡ some b)
        × IsReady P st.next_id b i)

module _ {W : Type 0} (m : Machine W) (u : Utils) (doc : IsDocumented m u) (b : BasicBlock)
    (context : Value) (st : DupState) where
  clone_found-next :
      ((clone_found u b context st).next_label ≡ st.next_label + 3)
      × ((clone_found u b context st).next_id
          ≡ (null_test u context st).next
            + 3
            + 2 * length (body b (null_test u context st) st.next_label))
      × (SameValues st.re_mapper → SameValues (clone_found u b context st).re_mapper)
  unfolding clone_found
  clone_found-next =
      let n = st.next_label in
      let c = null_test u context st in
      let after = drop_phis b.instructions in
      let law =
        doc.split_law c.value b.label (take_phis b.instructions ++ c.code) after st.blocks n
          c.next in
      rw law (
        refl,
        clone_insts-next n (n + 1) (c.next + 3) [] [] [] st.re_mapper after,
        clone_insts-SameValues n (n + 1) (c.next + 3) [] [] [] st.re_mapper after,
      )

module _ {W : Type 0} (m : Machine W) (u : Utils) (doc : IsDocumented m u) (P : ℕ → Type 0) (l : ℕ)
    (context : Value) (st : DupState) (sane : IsSane P st) (named : Named P context)
    (b : BasicBlock) (i : Instruction) (found : find_block l st.blocks ≡ some b)
    (ready : IsReady P st.next_id b i) where
  abbrev pub after : DupState
  after = clone_bb u l context st

  abbrev pub Later : ℕ → Type 0
  Later = Grown P st.next_id after.next_id

  -- The numbers that cloneBB leaves.
  pub after-next :
      (after.next_label ≡ st.next_label + 3)
      × ((null_test u context st).next
            + 3
            + 2 * length (body b (null_test u context st) st.next_label)
          ≡ after.next_id)
      × SameValues after.re_mapper
  after-next =
      let same = clone_bb-found u l context st b found in
      let next = clone_found-next m u doc b context st in
      rw same (next.0, sym next.1, next.2 sane.same_values)

  after-blocks :
      after.blocks
      ≡ splice b.label
          (four_blocks b (null_test u context st) st.next_label i)
          (map (move_block b.label (st.next_label + 2)) st.blocks)
  after-blocks =
      ap (λ d. d.blocks) (clone_bb-found u l context st b found)
      ∙ clone_found-blocks m u b context st i doc ready.terminated

  pub after-IsSane : IsSane Later after
  after-IsSane =
      let c = null_test u context st in
      let grows : st.next_id ≤ c.next = doc.is_null_next _ _ in
      let next = after-next in
      let blocks = after-blocks in
      let label = next.0 in
      let formed = (find_block-All (IsFormed P st.next_label) l st.blocks b sane.formed found).0 in
      let fresh : (j : ℕ)
          → c.next + 3 ≤ j
          → j < c.next + 3 + 2 * length (body b c st.next_label)
          → Later j =
        λ j x y. inr (omega (arith, x, grows), omega (arith, y, next.1)) in
      let same = sane.same_values context in
      let operands =
        doc.is_null_operands Later (lookup context context st.re_mapper) st.next_id
          (rw same (Named-keep P Later (λ j p. inl p) context named))
          (λ j x y. inr (x, omega (arith, y, next.1))) in
      record {
        bound =
            λ j q. elim q [ inl p ↦ omega (arith, sane.bound j p, grows, next.1) | inr (x, y) ↦ y ];
        formed =
            rw (blocks, label)
              (All-splice (IsFormed Later (st.next_label + 3)) b.label _ _
                (four_blocks-IsFormed P Later (λ j p. inl p) st.next_label b c i formed
                  ready.terminated (doc.is_null_plain _ _) fresh operands.0 operands.1)
                (map-move_IsFormed P Later (λ j p. inl p) st.next_label b.label st.blocks
                  sane.formed));
        same_values = next.2;
      }

  -- The other blocks can still be cloned.
  pub after-Pending : (k : ℕ) (v : Value) → k ≢ l → Pending P st (k, v) → Pending Later after (k, v)
  after-Pending k v other (name, (d, j, d_found, d_ready)) =
      let c = null_test u context st in
      let next = st.next_label in
      let label = (find_block-All (IsFormed P next) l st.blocks b sane.formed found).1 in
      let here = find_block-All (IsFormed P next) k st.blocks d sane.formed d_found in
      let grows : st.next_id ≤ c.next = doc.is_null_next _ _ in
      let numbers = after-next in
      let plain = drop_phis-map b.label next d.instructions here.0.phis_first in
      let blocks = after-blocks in
      let below : k < next = omega (arith, here.0.label_below, here.1) in
      let moved : find_block k after.blocks ≡ some (move_block b.label (next + 2) d) = rw blocks (
        find_block-splice_other b.label next (head_block b c next)
          (clone_block b c next 0 next (c.next + 1))
          (clone_block b c next 1 (next + 1) (c.next + 2)) (tail_block b c next i) k st.blocks
          (refl, refl, refl, refl) (rw label other) below
        ∙ ap (move_found b.label (next + 2)) d_found) in
      (
        Named-keep P Later (λ j p. inl p) v name,
        (
          move_block b.label (next + 2) d,
          j,
          moved,
          record {
            terminated = rw plain (d_ready.terminated);
            known =
                All-moved b.label next (λ x. x.id < after.next_id) d.instructions (λ x h. h)
                  (All-known st.next_id after.next_id d.instructions
                    (omega (arith, grows, numbers.1)) d_ready.known);
            void_unused =
                All-moved b.label next (HasNoUse Later) d.instructions (λ x h. h)
                  (All-HasNoUse P st.next_id after.next_id d.instructions d_ready.known
                    d_ready.void_unused);
          },
        ),
      )
