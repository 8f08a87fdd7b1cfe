-- ===== src/Proc/Fork.antt =====
-- xv6/proc.c: making, growing and collecting processes, where memory is needed. `fork` and
-- `forkcow` are one text in the source but for the copy of the address space.
pub mod Child
pub mod Shares
use tp2_ronaldo_joaopedro.Common.{
  ℕ, zero, suc, ◌+◌, ◌-◌, ◌%◌, ◌^◌, Bool, true, false, Option, none, some, List, [], ◌∷◌, ◌==◌, ltb,
  leb, set, update, if◌then◌else◌,
}
use tp2_ronaldo_joaopedro.Machine.{
  Machine, Outcome, ok, panic, hang, M, pure, fail, ◌>>=◌, ◌>>◌, store, filedup_bad, v2p, add32,
  lcr3,
}
use tp2_ronaldo_joaopedro.Kalloc.{kalloc, kfree}
use tp2_ronaldo_joaopedro.Vm.Uvm.{allocuvm, deallocuvm, freevm}
use tp2_ronaldo_joaopedro.Vm.Cow.{copyuvm, copyuvmcow}
use tp2_ronaldo_joaopedro.File.{Files, filedup}
use tp2_ronaldo_joaopedro.Proc.{Proc, Procs, Table, unused, runnable, set_state, take_slot}
use tp2_ronaldo_joaopedro.Proc.Steps.{set_proc}

-- The file table and the reference counts of the inodes, which `fork` shares with its child.
pub record World : Type 0 where
  pub table : Table
  pub files : Files
  pub iref : ℕ → ℕ

-- `filedup` of each open file of the parent.
unfoldable pub dup_files : List (Option ℕ) → Files → Option Files
dup_files [] files = some files
dup_files (none ∷ fs) files = dup_files fs files
dup_files (some f ∷ fs) files = elim (filedup files f) [
  | none ↦ none
  | some files' ↦ dup_files fs files'
]

-- The child's `ofile`: where the parent has no file it keeps its own entry.
unfoldable pub inherit : List (Option ℕ) → List (Option ℕ) → List (Option ℕ)
inherit [] own = own
inherit (f ∷ fs) [] = []
inherit (none ∷ fs) (o ∷ own) = o ∷ inherit fs own
inherit (some f ∷ fs) (o ∷ own) = some f ∷ inherit fs own

-- The loop of `safestrcpy` in xv6/string.c from byte `i` on, with room for `n` bytes.
unfoldable pub safestrcpy : List ℕ → List ℕ → ℕ → ℕ → List ℕ
safestrcpy s t i zero = s
safestrcpy s t i (suc zero) = set s i 0
safestrcpy s [] i (suc (suc n)) = set (set s i 0) (i + 1) 0
safestrcpy s (c ∷ t) i (suc (suc n)) =
    let rest = safestrcpy (set s i c) t (i + 1) (suc n) in
    if c == 0 then set (set s i 0) (i + 1) 0 else rest

unfoldable pub idup : Option ℕ → (ℕ → ℕ) → ℕ → ℕ
idup ip iref = elim ip [ none ↦ iref | some i ↦ update iref i (iref i + 1) ]

abbrev pub discarded : Proc → Proc
discarded p = record p { kstack = 0; state = unused }

-- What `fork` writes into the new process, ready to run.
abbrev pub child_of : ℕ → Proc → ℕ → Proc → Proc
child_of cur p d np = record np {
  pgdir = d;
  sz = p.sz;
  parent = some cur;
  tf = record p.tf { eax = 0 };
  ofile = inherit p.ofile np.ofile;
  cwd = p.cwd;
  name = safestrcpy np.name p.name 0 16;
  state = runnable;
}

-- What `fork` does after `allocproc`, with the slot that it got.
unfoldable pub make_child :
    (ℕ → ℕ → M (Option ℕ)) → ℕ → World → Option ℕ × Table → M (Option ℕ × World)
make_child copy cur w (none, t) = pure (none, record w { table = t })
make_child copy cur w (some i, t) = do
  let p = t.procs cur
  let np = t.procs i
  got ← copy p.pgdir p.sz
  elim got [
    | none ↦ do kfree np.kstack; pure (none, record w { table = set_proc i (discarded np) t })
    | some d ↦ elim (dup_files p.ofile w.files) [
      | none ↦ fail filedup_bad
      | some files ↦ pure (
        some np.pid,
        record {
          table = set_proc i (child_of cur p d np) t;
          files = files;
          iref = idup p.cwd w.iref;
        },
      )
    ]
  ]

-- The addresses that the new stack returns to are those of the linked kernel.
module _ (forkret trapret : ℕ) where
  -- Below the trap frame of 19 words come the return address `trapret` and the context, cleared but
  -- for its last word.
  unfoldable pub set_context : ℕ → M (Unit {0})
  set_context kstack = do
    store (v2p kstack) 1004 trapret
    store (v2p kstack) 999 0
    store (v2p kstack) 1000 0
    store (v2p kstack) 1001 0
    store (v2p kstack) 1002 0
    store (v2p kstack) 1003 forkret

  unfoldable pub allocproc : Table → M (Option ℕ × Table)
  allocproc t = elim (take_slot t) [
    | none ↦ pure (none, t)
    | some (i, t') ↦ do
      got ← kalloc
      elim got [
        | none ↦ pure (none, set_proc i (set_state unused (t'.procs i)) t')
        | some kstack ↦ do
          set_context kstack
          pure (some i, set_proc i (record (t'.procs i) { kstack = kstack }) t')
      ]
  ]

  unfoldable pub fork_by : (ℕ → ℕ → M (Option ℕ)) → ℕ → World → M (Option ℕ × World)
  fork_by copy cur w = allocproc w.table >>= make_child copy cur w

  unfoldable pub fork : ℕ → World → M (Option ℕ × World)
  fork = fork_by copyuvm

  unfoldable pub forkcow : ℕ → World → M (Option ℕ × World)
  forkcow = fork_by copyuvmcow

-- The memory that `wait` gives back of the process that it has found.
unfoldable pub free_memory : Proc → M (Unit {0})
free_memory p = kfree p.kstack >> freevm p.pgdir

-- `growproc` from the new size on; of `switchuvm` only the page table register is modelled.
unfoldable pub set_size : ℕ → ℕ → Table → M (Bool × Table)
set_size cur sz t =
    let p = t.procs cur in lcr3 (v2p p.pgdir) >> pure (true, set_proc cur (record p { sz = sz }) t)

-- `n` is an `int` as a 32-bit pattern; `false` is -1.
unfoldable pub growproc : ℕ → ℕ → Table → M (Bool × Table)
growproc cur n t =
    let p = t.procs cur in
    if n == 0 then set_size cur p.sz t else (do
      sz ←
          (if ltb n (2 ^ 31)
            then allocuvm p.pgdir p.sz (add32 p.sz n)
            else deallocuvm p.pgdir p.sz (add32 p.sz n))
      if sz == 0 then pure (false, t) else set_size cur sz t)
