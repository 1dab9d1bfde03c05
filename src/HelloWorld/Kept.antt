-- ===== src/HelloWorld/Kept.antt =====
-- What LogReturn adds to a function.
use llvm_tutor.Prelude.{
  ℕ, ◌+◌, ◌≤◌, ◌≡◌, refl, ◌∙◌, true, inl, inr, List, [], ◌∷◌, ◌++◌, length, All, arith, Bool-cases,
  ltb,
}
use llvm_tutor.Prelude.Containers.{string_eq, ◌===◌}
use llvm_tutor.Ir.{Instruction, BasicBlock, Function, Module}
use llvm_tutor.Builder.{Build}
use llvm_tutor.Inject.{is_return}
use llvm_tutor.Inject.Erasure.{erase, erase_blocks, erase_new, erase_below, erase-All_blocks}
use llvm_tutor.HelloWorld.{
  Logged, log_call, get_or_insert_log, log_returns, log_all_returns, log_return_run,
}

-- New instructions take identities from the given one on.
pub record IsFresh (b : Build) : Type 0 where
  pub code : (n : ℕ) → All (λ i. n ≤ i.id) (b n).code
  pub grows : (n : ℕ) → n ≤ (b n).next

erase_code :
    (n0 n : ℕ) (code rest : List Instruction)
    → n0 ≤ n
    → All (λ i. n ≤ i.id) code
    → erase n0 (code ++ rest) ≡ erase n0 rest
erase_code n0 n [] rest h a = refl
erase_code n0 n (i ∷ is) rest h (a, more) =
    erase_new n0 i (is ++ rest) (omega (arith, h, a)) ∙ erase_code n0 n is rest h more

module _ (create_gep : ℕ → Build) (law : (msg : ℕ) → IsFresh (create_gep msg))
    (n0 log_func msg : ℕ) where
  record ReturnsKept (n : ℕ) (is : List Instruction) (out : Logged (List Instruction))
      : Type 0 where
    same : erase n0 out.now ≡ erase n0 is
    grows : n ≤ out.next

  returns_kept :
      (is : List Instruction) (n : ℕ)
      → n0 ≤ n
      → ReturnsKept n is (log_returns create_gep log_func msg is n)
  unfolding log_returns
  returns_kept [] n h = record { same = refl; grows = omega arith }
  returns_kept (i ∷ is) n h = elim (Bool-cases (is_return i.opcode)) [
    | inl r ↦
        let ptr = create_gep msg n in
        let more = (law msg).grows n in
        let after = returns_kept is (ptr.next + 1) (omega (arith, h, more)) in
        rw (r, log_returns)
          record {
            same =
                erase_code n0 n ptr.code _ h ((law msg).code n)
                ∙ erase_new n0 (log_call ptr.next log_func ptr.value) _ (omega (arith, h, more))
                ∙ erase_below n0 i _ is after.same;
            grows = omega (arith, after.grows, more);
          }
    | inr r ↦
        let rest = returns_kept is n h in
        rw (r, log_returns) record { same = erase_below n0 i _ is rest.same; grows = rest.grows }
  ]

  blocks_kept :
      (bs : List BasicBlock) (n : ℕ)
      → n0 ≤ n
      → erase_blocks n0 (log_all_returns create_gep log_func msg bs n).now ≡ erase_blocks n0 bs
  unfolding log_all_returns erase_blocks
  blocks_kept [] n h = refl
  blocks_kept (b ∷ bs) n h =
      let here = returns_kept b.instructions n h in
      let out = log_returns create_gep log_func msg b.instructions n in
      λ k.
        record b { instructions = here.same k }
        ∷ blocks_kept bs out.next (omega (arith, h, here.grows)) k

-- Without the instructions that LogReturn added, the function is as it was, if its instructions had
-- identities below the new ones and the builder numbers its instructions from the next one on.
pub log_return_run-erased :
    (create_gep : ℕ → Build) (new_id n : ℕ) (m : Module) (f : Function)
    → ((msg : ℕ) → IsFresh (create_gep msg))
    → All (λ b. All (λ i. ltb i.id n ≡ true) b.instructions) f.blocks
    → erase_blocks n (log_return_run create_gep new_id n m f).blocks ≡ f.blocks
unfolding log_return_run
log_return_run-erased create_gep new_id n m f law a =
    elim (Bool-cases (f.name === "log_function_return")) [
      | inl e ↦ rw e (erase-All_blocks n f.blocks a)
      | inr e ↦ rw e (
          blocks_kept create_gep law n (get_or_insert_log new_id m.functions).0 (length m.globals)
            f.blocks n (omega arith)
          ∙ erase-All_blocks n f.blocks a)
    ]
