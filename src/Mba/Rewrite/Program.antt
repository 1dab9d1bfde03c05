-- ===== src/Mba/Rewrite/Program.antt =====
-- A rewritten function runs as the original, and is reported as changed when it was.
use llvm_tutor.Prelude.{
  ℕ, ◌≤◌, ◌+◌, ltb, ◌≡◌, refl, false, none, some, List, [], ◌∷◌, arith, All, Option-cases, inl, inr,
  if◌then◌else◌,
}
use llvm_tutor.Ir.{Instruction, BasicBlock, PreservedAnalyses}
use llvm_tutor.Machine.Exec.{Machine, State}
use llvm_tutor.Machine.Agreement.{IsBelow, Agrees-refl, Agrees-weaken, All-IsBelow_mono}
use llvm_tutor.Machine.Function.{Matches, exec_function, ResultAgrees, exec_function-Matches}
use llvm_tutor.Mba.Rewrite.{Rewriter, run_on_basic_block, run_on_blocks, run}
use llvm_tutor.Mba.Rewrite.Preserve.{IsCorrect, run_on_basic_block-IsPreserved}

abbrev pub AreBelow : ℕ → List BasicBlock → Type 0
AreBelow n = All (λ b. All (IsBelow n) b.instructions)

AreBelow-mono : (n k : ℕ) (bs : List BasicBlock) → n ≤ k → AreBelow n bs → AreBelow k bs
AreBelow-mono n k [] h b = tt
AreBelow-mono n k (b ∷ bs) h p =
    (All-IsBelow_mono n k b.instructions h p.0, AreBelow-mono n k bs h p.1)

module _ {W : Type 0} (m : Machine W) (p : Rewriter) (ok : IsCorrect m p) (s0 : State W) where
  run_on_blocks-Matches :
      (n k : ℕ) (bs : List BasicBlock)
      → n ≤ k
      → AreBelow n bs
      → Matches m n (run_on_blocks p k bs).code bs
  unfolding run_on_blocks
  run_on_blocks-Matches n k [] h b = tt
  run_on_blocks-Matches n k (c ∷ bs) h b =
      let here =
        run_on_basic_block-IsPreserved m p ok s0 k c.instructions
          (All-IsBelow_mono n k c.instructions h b.0) in
      let grows = here.grows in
      (
        refl,
        λ s. Agrees-weaken n k _ _ h (here.agrees s),
        b.0,
        run_on_blocks-Matches n (run_on_basic_block p k c.instructions).next bs (omega arith) b.1,
      )

  pub run-preserves :
      (n : ℕ) (bs : List BasicBlock)
      → AreBelow n bs
      → (fuel l : ℕ)
      → ResultAgrees n (exec_function m fuel (run p n bs).0 l s0) (exec_function m fuel bs l s0)
  unfolding run
  run-preserves n bs b fuel l =
      exec_function-Matches m n _ bs (run_on_blocks-Matches n n bs (omega arith) b) fuel l s0 s0
        (Agrees-refl n s0)

-- The number of instructions that a pass chooses.
abbrev pub candidates : Rewriter → List Instruction → ℕ
candidates p [] = 0
candidates p (i ∷ is) = elim (p.candidate i) [
  | none ↦ candidates p is
  | some c ↦ candidates p is + 1
]

abbrev pub all_candidates : Rewriter → List BasicBlock → ℕ
all_candidates p [] = 0
all_candidates p (b ∷ bs) = candidates p b.instructions + all_candidates p bs

module _ (p : Rewriter) where
  block_report :
      (n : ℕ) (is : List Instruction)
      → let out = run_on_basic_block p n is in
        (out.subst_count ≡ candidates p is)
        × (out.changed ≡ ltb 0 (candidates p is))
        × (out.changed ≡ false → out.code ≡ is)
  unfolding run_on_basic_block
  block_report n [] = (refl, refl, λ e. refl)
  block_report n (i ∷ is) = elim (Option-cases (p.candidate i)) [
    | inl skip ↦ rw (skip, run_on_basic_block) (ground (arith, block_report n is))
    | inr (c, e) ↦
        let ih = block_report (p.replacement i.ty c.0 c.1 n).next is in
        rw (e, run_on_basic_block) (ground (arith, ih))
  ]

  blocks_report :
      (n : ℕ) (bs : List BasicBlock)
      → let out = run_on_blocks p n bs in
        (out.subst_count ≡ all_candidates p bs)
        × (out.changed ≡ ltb 0 (all_candidates p bs))
        × (out.changed ≡ false → out.code ≡ bs)
  unfolding run_on_blocks
  blocks_report n [] = (refl, refl, λ e. refl)
  blocks_report n (b ∷ bs) =
      let here = block_report n b.instructions in
      let rest = blocks_report (run_on_basic_block p n b.instructions).next bs in
      ground (arith, here, rest)

  -- SubstCount counts the chosen instructions, and a function is reported as changed exactly when
  -- it has one.
  pub run_counts :
      (n : ℕ) (bs : List BasicBlock)
      → ((run_on_blocks p n bs).subst_count ≡ all_candidates p bs)
        × ((run p n bs).1 ≡ (
            if ltb 0 (all_candidates p bs)
            then PreservedAnalyses.none_preserved
            else PreservedAnalyses.all_preserved))
  unfolding run
  run_counts n bs = let r = blocks_report n bs in (r.0, rw r.1)

  -- A function whose analyses are reported as preserved is as it was.
  pub run_unchanged :
      (n : ℕ) (bs : List BasicBlock)
      → (run p n bs).1 ≡ PreservedAnalyses.all_preserved
      → (run p n bs).0 ≡ bs
  unfolding run
  run_unchanged n bs h = ground (arith, blocks_report n bs)
