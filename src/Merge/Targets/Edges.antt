-- ===== src/Merge/Targets/Edges.antt =====
-- What MergeBB::updateBranchTargets does to the edges of the function.
use llvm_tutor.Prelude.{
  ℕ, ◌==◌, ◌≡◌, refl, ap, ◌∙◌, Bool, true, false, ◌&&◌, ◌||◌, not, inl, inr, List, [], ◌∷◌,
  if◌then◌else◌, All, arith, Bool-cases,
}
use llvm_tutor.Prelude.Containers.{nat_eq, contains}
use llvm_tutor.Ir.{Value, basic_block, same_value, same_value_iff, Instruction, BasicBlock}
use llvm_tutor.Ir.Query.{mentions, targets, last_inst}
use llvm_tutor.Merge.Targets.{
  update_operands, update_terminator, update_block, update_all, update_branch_targets,
}

-- Whether there is an edge to `k` after a redirection of all edges, given whether there were edges
-- to `erase`, to `retain` and to `k`.
unfoldable pub redirected : (erase retain k : ℕ) → Bool → Bool → Bool → Bool
redirected erase retain k to_erase to_retain to_k =
    if k == erase then false else if k == retain then to_retain || to_erase else to_k

-- All but the terminator.
unfoldable pub drop_last : List Instruction → List Instruction
drop_last [] = []
drop_last (i ∷ []) = []
drop_last (i ∷ j ∷ is) = i ∷ drop_last (j ∷ is)

-- Pointwise, block by block.
abbrev pub Blockwise :
    (BasicBlock → BasicBlock → Type 0) → List BasicBlock → List BasicBlock → Type 0
Blockwise R [] [] = Unit
Blockwise R [] (c ∷ cs) = ⊥
Blockwise R (b ∷ bs) [] = ⊥
Blockwise R (b ∷ bs) (c ∷ cs) = R b c × Blockwise R bs cs

-- Block c is block b, its edges to `erase` redirected if `on`.
abbrev pub IsRedirected :
    (erase retain : ℕ) → (BasicBlock → Bool) → BasicBlock → BasicBlock → Type 0
IsRedirected erase retain on b c =
    (c.label ≡ b.label)
    × (drop_last c.instructions ≡ drop_last b.instructions)
    × ((k : ℕ)
        → targets c k ≡ (
            if on b
            then redirected erase retain k (targets b erase) (targets b retain) (targets b k)
            else targets b k))

-- Each value is the erased block, or its comparison with other blocks is all that matters.
data Compared (v : Value) (erase : ℕ) : Type 0 where
  erased :
      (same_value v (basic_block erase) ≡ true)
      → ((k : ℕ) → same_value v (basic_block k) ≡ (erase == k))
      → Compared v erase
  kept : (same_value v (basic_block erase) ≡ false) → Compared v erase

compare : (v : Value) (erase : ℕ) → Compared v erase
unfolding same_value
compare v erase = elim (Bool-cases (same_value v (basic_block erase))) [
  | inl e ↦
      erased e
        (λ k. ap (λ u. same_value u (basic_block k)) ((same_value_iff v (basic_block erase)).0 e))
  | inr e ↦ kept e
]

module _ (erase retain : ℕ) where
  operands_mention :
      (vs : List Value) (k : ℕ)
      → (erase == retain) ≡ false
      → mentions (update_operands erase retain vs).now k
        ≡ redirected erase retain k (mentions vs erase) (mentions vs retain) (mentions vs k)
  unfolding mentions update_operands redirected same_value
  operands_mention [] k h = ground arith
  operands_mention (v ∷ vs) k h = elim (compare v erase) [
    | erased e same ↦ ground (arith, operands_mention vs k h, same k, same retain)
    | kept e ↦ ground (arith, operands_mention vs k h)
  ]

  terminator_mentions :
      (is : List Instruction) (l k : ℕ)
      → (erase == retain) ≡ false
      → targets (record { label = l; instructions = (update_terminator erase retain is).now }) k
        ≡ redirected erase retain k
            (targets (record { label = l; instructions = is }) erase)
            (targets (record { label = l; instructions = is }) retain)
            (targets (record { label = l; instructions = is }) k)
  unfolding update_terminator targets last_inst
  terminator_mentions [] l k h = unfold redirected in ground arith
  terminator_mentions (t ∷ []) l k h = operands_mention t.operands k h
  terminator_mentions (i ∷ j ∷ []) l k h = terminator_mentions (j ∷ []) l k h
  terminator_mentions (i ∷ j ∷ m ∷ is) l k h = terminator_mentions (j ∷ m ∷ is) l k h

  before_terminator :
      (is : List Instruction) → drop_last (update_terminator erase retain is).now ≡ drop_last is
  unfolding update_terminator drop_last
  before_terminator [] = refl
  before_terminator (t ∷ []) = refl
  before_terminator (i ∷ j ∷ []) = refl
  before_terminator (i ∷ j ∷ m ∷ is) = ap (λ r. i ∷ r) (before_terminator (j ∷ m ∷ is))

  redirect :
      (on : BasicBlock → Bool) (b : BasicBlock)
      → (erase == retain) ≡ false
      → on b ≡ true
      → IsRedirected erase retain on b
          (record b { instructions = (update_terminator erase retain b.instructions).now })
  redirect on b h e = (
    refl,
    before_terminator b.instructions,
    λ k. rw e (terminator_mentions b.instructions b.label k h),
  )

  keep : (on : BasicBlock → Bool) (b : BasicBlock) → on b ≡ false → IsRedirected erase retain on b b
  keep on b e = (refl, refl, λ k. rw e refl)

  block-IsRedirected :
      (l : ℕ) (bs : List BasicBlock)
      → (erase == retain) ≡ false
      → Blockwise
          (IsRedirected erase retain (λ b. b.label == l))
          bs
          (update_block erase retain l bs).now
  unfolding update_block
  block-IsRedirected l [] h = _
  block-IsRedirected l (b ∷ bs) h = elim (Bool-cases (b.label == l)) [
    | inl here ↦ rw here (redirect (λ b. b.label == l) b h here, block-IsRedirected l bs h)
    | inr there ↦ rw there (keep (λ b. b.label == l) b there, block-IsRedirected l bs h)
  ]

  -- Redirecting twice is redirecting once.
  IsRedirected-again :
      (here on both : BasicBlock → Bool) (b c d : BasicBlock)
      → (erase == retain) ≡ false
      → here c ≡ here b
      → on c ≡ on b
      → both b ≡ (here b || on b)
      → IsRedirected erase retain here b c
      → IsRedirected erase retain on c d
      → IsRedirected erase retain both b d
  unfolding redirected
  IsRedirected-again here on both b c d h e f g (p, q, r) (p', q', r') = (
    p' ∙ p,
    q' ∙ q,
    λ k. ground (arith, r k, r erase, r retain, r' k, r' erase, r' retain, e, f, g, h),
  )

  compose :
      (l : ℕ) (ls : List ℕ) (bs cs ds : List BasicBlock)
      → (erase == retain) ≡ false
      → Blockwise (IsRedirected erase retain (λ b. b.label == l)) bs cs
      → Blockwise (IsRedirected erase retain (λ b. contains ls b.label)) cs ds
      → Blockwise (IsRedirected erase retain (λ b. contains (l ∷ ls) b.label)) bs ds
  compose l ls [] [] [] h p q = _
  compose l ls (b ∷ bs) (c ∷ cs) (d ∷ ds) h (p, ps) (q, qs) = (
    IsRedirected-again (λ x. x.label == l) (λ x. contains ls x.label)
        (λ x. contains (l ∷ ls) x.label) b c d h (ap (λ k. k == l) p.0) (ap (contains ls) p.0)
        (unfold contains in ground arith) p q,
    compose l ls bs cs ds h ps qs,
  )
  compose l ls [] [] (d ∷ ds) h p q = absurd q
  compose l ls [] (c ∷ cs) ds h p q = absurd p
  compose l ls (b ∷ bs) [] ds h p q = absurd p
  compose l ls (b ∷ bs) (c ∷ cs) [] h p q = absurd q

  kept_all : (bs : List BasicBlock) → Blockwise (IsRedirected erase retain (λ b. false)) bs bs
  kept_all [] = _
  kept_all (b ∷ bs) = (keep (λ b. false) b refl, kept_all bs)

  all-IsRedirected :
      (ls : List ℕ) (bs : List BasicBlock)
      → (erase == retain) ≡ false
      → Blockwise
          (IsRedirected erase retain (λ b. contains ls b.label))
          bs
          (update_all erase retain ls bs).now
  unfolding update_all
  all-IsRedirected [] bs h = unfold contains in kept_all bs
  all-IsRedirected (l ∷ ls) bs h =
      compose l ls bs _ _ h (block-IsRedirected l bs h) (all-IsRedirected ls _ h)

  -- The listed blocks are all that had an edge to `erase`.
  complete :
      (ls : List ℕ) (bs cs : List BasicBlock)
      → All (λ b. (targets b erase && not (contains ls b.label)) ≡ false) bs
      → Blockwise (IsRedirected erase retain (λ b. contains ls b.label)) bs cs
      → Blockwise (IsRedirected erase retain (λ b. true)) bs cs
  complete ls [] [] a p = _
  complete ls (b ∷ bs) (c ∷ cs) (a, more) ((p, q, r), ps) =
      ((p, q, λ k. unfold redirected in ground (arith, r k, a)), complete ls bs cs more ps)
  complete ls [] (c ∷ cs) a p = absurd p
  complete ls (b ∷ bs) [] a p = absurd p

-- What LLVM promises of predecessors(BB): every block with an edge to BB is among them.
abbrev pub ListsAll : (List BasicBlock → ℕ → List ℕ) → ℕ → List BasicBlock → Type 0
ListsAll predecessors l bs =
    All (λ b. (targets b l && not (contains (predecessors bs l) b.label)) ≡ false) bs

-- Every edge to the erased block leads to the retained one afterwards, all other edges are as before,
-- and so are the labels and everything before the terminators, if the two blocks differ and
-- predecessors(BB) lists every block with an edge to the erased one.
pub update_branch_targets-redirects :
    (predecessors : List BasicBlock → ℕ → List ℕ) (erase retain : ℕ) (bs : List BasicBlock)
    → (erase == retain) ≡ false
    → ListsAll predecessors erase bs
    → Blockwise
        (IsRedirected erase retain (λ b. true))
        bs
        (update_branch_targets predecessors erase retain bs).now
unfolding update_branch_targets
update_branch_targets-redirects predecessors erase retain bs h a =
    complete erase retain (predecessors bs erase) bs _ a
      (all-IsRedirected erase retain (predecessors bs erase) bs h)
