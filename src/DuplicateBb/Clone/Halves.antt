-- ===== src/DuplicateBb/Clone/Halves.antt =====
-- The four blocks, one after the other: up to the branch as the block did its PHI nodes, then one
-- of the clones as it did its other instructions, and the tail.
use llvm_tutor.Prelude.{
  ℕ, ◌+◌, ◌≤◌, ◌<◌, ◌≡◌, refl, sym, ap, ◌∙◌, false, some, List, [], ◌∷◌, ◌++◌, All, All-append,
  arith,
}
use llvm_tutor.Prelude.Containers.{lookup}
use llvm_tutor.Ir.{instruction, basic_block, Instruction, BasicBlock}
use llvm_tutor.Ir.Query.{is_phi, incoming_value}
use llvm_tutor.Machine.Exec.{Machine, State, exec}
use llvm_tutor.Machine.Flow.{Terminators, Exit, IsBranching, assign_phis, finish, run_block}
use llvm_tutor.Machine.Flow.Live.{
  AgreesOn, IsPlain, drop_phis-IsPlain, SameExit, finish-SameExit, run_block-ending,
}
use llvm_tutor.DuplicateBb.Clone.{VMap}
use llvm_tutor.DuplicateBb.Clone.Documented.{branch}
use llvm_tutor.DuplicateBb.Clone.Moved.{assign_phis-IsPlain}
use llvm_tutor.DuplicateBb.Clone.Loop.{
  mapped, branch_code, branch_vmap, tail_phis, Tracks, exec-Tracks,
}
use llvm_tutor.DuplicateBb.Clone.Loop.Tail.{
  drop_phis-tail_phis, branch_vmap-avoids, assign_phis-tail_phis,
}
use llvm_tutor.DuplicateBb.Clone.Formed.{Operands, HasNoUse, branch_code-IsPlain}

-- The state after the PHI nodes of a block.
abbrev pub after_phis : {W : Type 0} → Machine W → ℕ → BasicBlock → State W → State W
after_phis m from b s = record {
  regs = assign_phis m s.regs from b.instructions s.regs;
  world = s.world;
}

module _ {W : Type 0} (m : Machine W) (leave : Terminators W) (branching : IsBranching leave)
    (P : ℕ → Type 0) (n : ℕ) (bound : (j : ℕ) → P j → j < n) where
  -- In u, the images of the registers of P hold what s has.
  pub record HoldsAt (vm : VMap) (s u : State W) : Type 0 where
    pub at_images : (j : ℕ) → P j → s.regs j ≡ u.regs (mapped vm j)
    pub same_world : s.world ≡ u.world

  -- One clone, up to its exit in state u: what the body does from s, it does from t.
  pub run_clone :
      (off k id l from tail : ℕ) (is : List Instruction) (s t : State W)
      → off < 2
      → n ≤ id
      → id < k
      → IsPlain is
      → All (Operands P) is
      → AgreesOn P s t
      → let b : BasicBlock = record {
        label = l;
        instructions = branch_code off k [] is ++ branch id (basic_block tail ∷ []) ∷ [];
      } in
        (u : State W) × (run_block m leave from b t
          ≡ some (record { state = u; target = some tail }))
        × HoldsAt (branch_vmap off k [] is) (exec m is s) u
  unfolding lookup
  run_clone off k id l from tail is s t o f b p h a =
      let code = branch_code off k [] is in
      let br = branch id (basic_block tail ∷ []) in
      let block : BasicBlock = record { label = l; instructions = code ++ br ∷ [] } in
      let plain : IsPlain (code ++ br ∷ []) =
        All-append (λ i. is_phi i.opcode ≡ false) code (br ∷ []) (branch_code-IsPlain off k [] is p)
          (refl, tt) in
      let e = finish m leave br (exec m code t) in
      let start : Tracks m P k [] s t = record {
        images = λ j q. (omega (arith, bound j q), a.registers j q);
        same_world = a.same_world;
      } in
      let tracks = (exec-Tracks m P off k [] s t is o start h).1 in
      let avoids = branch_vmap-avoids P off k id [] is b (λ j q. ground (arith, bound j q)) in
      let same_start : after_phis m from block t ≡ t =
        ap (λ r. record { regs = r; world = t.world })
          (assign_phis-IsPlain m P t.regs from (code ++ br ∷ []) t.regs plain) in
      let ran : run_block m leave from block t ≡ some e =
        run_block-ending m leave from block code br t ((drop_phis-IsPlain _ plain).0)
        ∙ ap (λ x. some (finish m leave br (exec m code x))) same_start in
      let target : e.target ≡ some tail = branching.br_one _ _ tail _ in
      (
        e.state,
        ran ∙ ap (λ x. some (record { state = e.state; target = x })) target,
        record {
          at_images = λ j q. ground (arith, tracks.images j q, avoids j q);
          same_world = tracks.same_world ∙ sym (branching.br_world _ _ _ _);
        },
      )

  -- The tail, entered from the clone with the number `off`.
  pub run_tail :
      (x y off k l from : ℕ) (is : List Instruction) (i : Instruction) (s u : State W)
      → ((c : ℕ)
          → incoming_value (x ∷ y ∷ []) (instruction c ∷ instruction (c + 1) ∷ []) from
            ≡ some (instruction (c + off)))
      → is_phi i.opcode ≡ false
      → Operands P i
      → All (HasNoUse P) is
      → HoldsAt (branch_vmap off k [] is) s u
      → let b : BasicBlock = record { label = l; instructions = tail_phis x y k is ++ i ∷ [] } in
        (e : Exit W) × (run_block m leave from b u ≡ some e)
        × SameExit m P leave (finish m leave i s) e
  unfolding lookup exec
  run_tail x y off k l from is i s u c p h v a =
      let block : BasicBlock = record { label = l; instructions = tail_phis x y k is ++ i ∷ [] } in
      let t = after_phis m from block u in
      let agrees : AgreesOn P s t = record {
        registers = λ j q.
            a.at_images j q
            ∙ sym (
                assign_phis-tail_phis m P x y off from u.regs c (i ∷ []) (p, tt) k [] is v u.regs
                  (λ j q. refl) j q);
        same_world = a.same_world;
      } in
      (
        finish m leave i t,
        run_block-ending m leave from block [] i u (drop_phis-tail_phis x y k is (i ∷ []) (p, tt)),
        finish-SameExit m P leave s t i agrees h,
      )
