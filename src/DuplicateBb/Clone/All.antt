-- ===== src/DuplicateBb/Clone/All.antt =====
-- lib/DuplicateBB.cpp, run: cloneBB on one block after another.
use llvm_tutor.Prelude.{
  ℕ, wrap_unsigned, length, ◌+◌, ◌<◌, ◌≡◌, ◌≢◌, refl, sym, ap, ◌∙◌, inl, some, List, [], ◌∷◌, All,
  arith,
}
use llvm_tutor.Ir.{Value, value_eq, Instruction, BasicBlock}
use llvm_tutor.Ir.Query.{find_block}
use llvm_tutor.Machine.Exec.{Machine, State}
use llvm_tutor.Machine.Flow.{Terminators, IsBranching, exec_flow}
use llvm_tutor.Machine.Flow.Live.{Named, AgreesOn}
use llvm_tutor.DuplicateBb.Clone.{Utils, DupState, clone_found, clone_bb, clone_all}
use llvm_tutor.DuplicateBb.Clone.Documented.{move, IsDocumented}
use llvm_tutor.DuplicateBb.Clone.Formed.{IsReady}
use llvm_tutor.DuplicateBb.Clone.Correct.{clone_bb-found, clone_bb-preserves}
use llvm_tutor.DuplicateBb.Clone.Sane.{
  IsSane, Pending, Later, after-next, after-IsSane, after-Pending,
}

abbrev pub Distinct : List (ℕ × Value) → Type 0
Distinct [] = Unit
Distinct ((l, v) ∷ ts) = All (λ t. t.0 ≢ l) ts × Distinct ts

All-Pending :
    {W : Type 0} (m : Machine W) (u : Utils) (doc : IsDocumented m u) (P : ℕ → Type 0) (l : ℕ)
    (context : Value) (st : DupState) (sane : IsSane P st) (named : Named P context)
    (b : BasicBlock) (i : Instruction) (found : find_block l st.blocks ≡ some b)
    (ready : IsReady P st.next_id b i) (ts : List (ℕ × Value))
    → All (λ t. t.0 ≢ l) ts
    → All (Pending P st) ts
    → All
        (Pending
          (Later m u doc P l context st sane named b i found ready)
          (clone_bb u l context st))
        ts
All-Pending m u doc P l context st sane named b i found ready [] d h = tt
All-Pending m u doc P l context st sane named b i found ready ((k, v) ∷ ts) d h = (
  after-Pending m u doc P l context st sane named b i found ready k v d.0 h.0,
  All-Pending m u doc P l context st sane named b i found ready ts d.1 h.1,
)

AgreesOn-refl : {W : Type 0} (P : ℕ → Type 0) (s : State W) → AgreesOn P s s
AgreesOn-refl P s = record { registers = λ j p. refl; same_world = refl }

pub clone_all-preserves :
    {W : Type 0} (m : Machine W) (leave : Terminators W)
    → IsBranching leave
    → (u : Utils) → IsDocumented m u
    → (ts : List (ℕ × Value)) (P : ℕ → Type 0) (st : DupState) → IsSane P st
    → All (Pending P st) ts
    → Distinct ts
    → (fuel x from : ℕ) (s r : State W) → from < st.next_label
    → All (λ t. t.0 ≢ from) ts
    → exec_flow m leave fuel st.blocks from x s ≡ some r
    → (fuel' : ℕ) × (r' : State W) × (exec_flow m leave fuel' (clone_all u ts st).blocks from x s
        ≡ some r')
      × AgreesOn P r r'
unfolding clone_all
clone_all-preserves m leave branching u doc [] P st sane pending distinct fuel x from s r f outside
      ran =
    (fuel, r, ran, AgreesOn-refl P r)
clone_all-preserves m leave branching u doc ((l, v) ∷ ts) P st sane pending distinct fuel x from s r
      f outside ran =
    let (named, (b, i, found, ready)) = pending.0 in
    let once =
      clone_bb-preserves m leave branching u doc P v st sane.bound sane.formed l b i found ready
        fuel x from s s r f (AgreesOn-refl P s) ran in
    let stays : move l (st.next_label + 2) from ≡ from = ground (arith, outside.0) in
    let numbers = after-next m u doc P l v st sane named b i found ready in
    let rest =
      clone_all-preserves m leave branching u doc ts
        (Later m u doc P l v st sane named b i found ready) (clone_bb u l v st)
        (after-IsSane m u doc P l v st sane named b i found ready)
        (All-Pending m u doc P l v st sane named b i found ready ts distinct.0 pending.1) distinct.1
        once.0 x from s once.1 (omega (arith, f, numbers.0)) outside.1
        (sym (ap (λ k. exec_flow m leave once.0 (clone_bb u l v st).blocks k x s) stays)
          ∙ once.3) in
    (
      rest.0,
      rest.1,
      rest.2,
      record {
        registers = λ j p. once.4.registers j p ∙ rest.3.registers j (inl p);
        same_world = once.4.same_world ∙ rest.3.same_world;
      },
    )

clone_bb-count :
    (u : Utils) (l : ℕ) (context : Value) (st : DupState) (b : BasicBlock)
    → find_block l st.blocks ≡ some b
    → (clone_bb u l context st).duplicate_bb_count ≡ wrap_unsigned (st.duplicate_bb_count + 1)
unfolding clone_found
clone_bb-count u l context st b h =
    ap (λ d. d.duplicate_bb_count) (clone_bb-found u l context st b h)

pub clone_all-counts :
    {W : Type 0} (m : Machine W) (u : Utils)
    → IsDocumented m u
    → (ts : List (ℕ × Value)) (P : ℕ → Type 0) (st : DupState) → IsSane P st
    → All (Pending P st) ts
    → Distinct ts
    → st.duplicate_bb_count < 4294967296
    → (clone_all u ts st).duplicate_bb_count ≡ wrap_unsigned (st.duplicate_bb_count + length ts)
unfolding clone_all
clone_all-counts m u doc [] P st sane pending distinct h = omega (arith, h)
clone_all-counts m u doc ((l, v) ∷ ts) P st sane pending distinct h =
    let (named, (b, i, found, ready)) = pending.0 in
    let one = clone_bb-count u l v st b found in
    let rest =
      clone_all-counts m u doc ts (Later m u doc P l v st sane named b i found ready)
        (clone_bb u l v st) (after-IsSane m u doc P l v st sane named b i found ready)
        (All-Pending m u doc P l v st sane named b i found ready ts distinct.0 pending.1) distinct.1
        (omega (arith, one)) in
    omega (arith, one, rest)
