-- ===== src/DuplicateBb/Clone/Blocks.antt =====
-- Where the blocks of a function stand after one of them has been split in four.
use llvm_tutor.Prelude.{
  ℕ, ◌+◌, ◌==◌, ◌<◌, ◌≡◌, ◌≢◌, refl, inl, inr, Option, none, some, List, [], ◌∷◌, map, All, arith,
  Bool-cases,
}
use llvm_tutor.Ir.{BasicBlock}
use llvm_tutor.Ir.Query.{find_block}
use llvm_tutor.DuplicateBb.Clone.{splice}
use llvm_tutor.DuplicateBb.Clone.Documented.{move_block}

abbrev pub move_found : ℕ → ℕ → Option BasicBlock → Option BasicBlock
move_found l tail none = none
move_found l tail (some b) = some (move_block l tail b)

find_block-moved :
    (l tail k : ℕ) (bs : List BasicBlock)
    → find_block k (map (move_block l tail) bs) ≡ move_found l tail (find_block k bs)
unfolding find_block
find_block-moved l tail k [] = refl
find_block-moved l tail k (c ∷ cs) = ground (arith, find_block-moved l tail k cs)

module _ (l n : ℕ) (h t e u : BasicBlock) where
  -- The labels of the four blocks: that of the split block, and three fresh ones from n on.
  abbrev pub FreshLabels : Type 0
  FreshLabels = (h.label ≡ l) × (t.label ≡ n) × (e.label ≡ n + 1) × (u.label ≡ n + 2)

  -- Another block stays where it was.
  pub find_block-splice_other :
      (k : ℕ) (bs : List BasicBlock)
      → FreshLabels
      → k ≢ l
      → k < n
      → find_block k (splice l (h ∷ t ∷ e ∷ u ∷ []) (map (move_block l (n + 2)) bs))
        ≡ move_found l (n + 2) (find_block k bs)
  unfolding find_block splice
  find_block-splice_other k [] f d b = refl
  find_block-splice_other k (c ∷ cs) f d b =
      ground (arith, find_block-splice_other k cs f d b, find_block-moved l (n + 2) k cs)

  pub find_block-splice_new :
      (b : BasicBlock) (bs : List BasicBlock)
      → FreshLabels
      → All (λ c. c.label < n) bs
      → find_block l bs ≡ some b
      → let new = splice l (h ∷ t ∷ e ∷ u ∷ []) (map (move_block l (n + 2)) bs) in
        (find_block l new ≡ some h)
        × (find_block n new ≡ some t)
        × (find_block (n + 1) new ≡ some e)
        × (find_block (n + 2) new ≡ some u)
  unfolding find_block splice
  find_block-splice_new b [] f below x = absurd (ground (arith, x))
  find_block-splice_new b (c ∷ cs) f below x = elim (Bool-cases (c.label == l)) [
    | inl same ↦ ground (arith, f, below, same)
    | inr other ↦
        let more = find_block-splice_new b cs f (below.1) (ground (arith, x, other)) in
        ground (arith, more, other, below)
  ]
