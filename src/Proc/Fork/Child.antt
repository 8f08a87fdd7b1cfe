-- ===== src/Proc/Fork/Child.antt =====
-- What `fork` and `forkcow` in xv6/proc.c return and leave in the process table.
use tp2_ronaldo_joaopedro.Common.{
  ℕ, ◌+◌, ◌<◌, ◌≤◌, length, get_or, ==_refl, ap, subst, sym, ◌∙◌, true, false, Option, none, some,
  List, [], ◌∷◌, ◌≡◌, ◌≢◌, refl, ◌⊎◌, inl, inr, arith, Option-cases,
}
use tp2_ronaldo_joaopedro.Machine.{Machine, M, add32, kernbase, filedup_bad}
use tp2_ronaldo_joaopedro.Machine.Triples.{After, Triple, bind, returns, fails, Anything, Whatever}
use tp2_ronaldo_joaopedro.Kalloc.{kalloc, take_free}
use tp2_ronaldo_joaopedro.Vm.Uvm.Ends.{kfree_ends}
use tp2_ronaldo_joaopedro.Vm.Cow.{copyuvm, copyuvmcow}
use tp2_ronaldo_joaopedro.Vm.Cow.Ends.{copyuvm_ends, copyuvmcow_ends}
use tp2_ronaldo_joaopedro.File.{Files}
use tp2_ronaldo_joaopedro.Proc.{
  Proc, Table, unused, embryo, runnable, is_state, set_state, take_slot,
}
use tp2_ronaldo_joaopedro.Proc.Steps.{set_proc, take_slot-cases}
use tp2_ronaldo_joaopedro.Proc.Fork.{
  World, dup_files, set_context, allocproc, discarded, child_of, make_child, fork_by, idup, fork,
  forkcow,
}
use tp2_ronaldo_joaopedro.Proc.Fork.Shares.{
  opens, refers, more_refs, inherit-some, dup_files-counts, idup-counts,
}

-- A table that differs from another one in slot `i` at most, where a process was numbered.
pub record IsOnly (i : ℕ) (t t' : Table) : Type 0 where
  pub was_free : is_state (t.procs i).state unused ≡ true
  pub others : (j : ℕ) → j ≢ i → t'.procs j ≡ t.procs j
  pub numbered : t'.next_pid ≡ add32 t.next_pid 1
  pub init : t'.initproc ≡ t.initproc

-- No slot is free, or memory was short and the slot is free again, or the slot is the new process.
abbrev pub Allotted : Table → Option ℕ × Table → Type 0
Allotted t (none, t') =
    (t' ≡ t) ⊎ ((i : ℕ) × IsOnly i t t' × (is_state (t'.procs i).state unused ≡ true))
Allotted t (some i, t') =
    IsOnly i t t'
    × (is_state (t'.procs i).state embryo ≡ true)
    × ((t'.procs i).pid ≡ t.next_pid)
    × ((t'.procs i).ofile ≡ (t.procs i).ofile)

take_free_ends : (l : List ℕ) (m : Machine) → After Whatever (take_free l m)
unfolding take_free
take_free_ends [] m = tt
take_free_ends (v ∷ l) m = tt

kalloc_ends : Triple Anything kalloc Whatever
unfolding kalloc
kalloc_ends = record { apply = λ m h. take_free_ends m.freelist m }

given :
    {A : Type 0} {F : Type 0} {c : M A} {Q : A → Machine → Type 0}
    → (F → Triple Anything c Q)
    → Triple (λ _. F) c Q
given k = record { apply = λ m f. (k f).apply m tt }

-- -1 leaves the files and inodes alone; a pid comes with a child that is ready, has the parent's
-- memory size, current directory and files, and sees 0 as its own result, and each of its references
-- is counted.
abbrev pub Forked : ℕ → World → Option ℕ × World → Type 0
Forked cur w (none, w') =
    (w'.files ≡ w.files)
    × (w'.iref ≡ w.iref)
    × ((w'.table ≡ w.table)
        ⊎ ((i : ℕ) × IsOnly i w.table w'.table × (is_state (w'.table.procs i).state unused ≡ true)))
Forked cur w (some pid, w') =
    (i : ℕ) × IsOnly i w.table w'.table
    × (pid ≡ w.table.next_pid)
    × (is_state (w'.table.procs i).state runnable ≡ true)
    × ((w'.table.procs i).pid ≡ pid)
    × ((w'.table.procs i).parent ≡ some cur)
    × ((w'.table.procs i).tf.eax ≡ 0)
    × ((w'.table.procs i).sz ≡ (w.table.procs cur).sz)
    × ((w'.table.procs i).cwd ≡ (w.table.procs cur).cwd)
    × ((fd f : ℕ)
        → fd < length (w.table.procs i).ofile
        → get_or (w.table.procs cur).ofile fd none ≡ some f
        → get_or (w'.table.procs i).ofile fd none ≡ some f)
    × ((j : ℕ) → w'.files j ≡ more_refs (opens j (w.table.procs cur).ofile) (w.files j))
    × ((j : ℕ) → w'.iref j ≡ w.iref j + refers j (w.table.procs cur).cwd)

again : (i : ℕ) (t t' : Table) (p : Proc) → IsOnly i t t' → IsOnly i t (set_proc i p t')
again i t t' p h = record {
  was_free = h.was_free;
  others = λ j other. ground (arith, other, h.others j other);
  numbered = h.numbered;
  init = h.init;
}

-- The new process is filled in.
filled :
    (cur i d : ℕ) (w : World) (t : Table) (files : Files)
    → is_state (w.table.procs cur).state unused ≡ false
    → Allotted w.table (some i, t)
    → dup_files (t.procs cur).ofile w.files ≡ some files
    → Forked cur w (
      some (t.procs i).pid,
      record {
        table = set_proc i (child_of cur (t.procs cur) d (t.procs i)) t;
        files = files;
        iref = idup (t.procs cur).cwd w.iref;
      },
    )
unfolding is_state
filled cur i d w t files busy (only, young, pid, own) e =
    let other : cur ≢ i = λ cur_i. ground (arith, cur_i, busy, only.was_free) in
    let same = only.others cur other in
    (
      i,
      again i w.table t (child_of cur (t.procs cur) d (t.procs i)) only,
      pid,
      ground arith,
      ground arith,
      ground arith,
      ground arith,
      ground (arith, same),
      ground (arith, same),
      λ fd f lt there. rw (==_refl i) (
          inherit-some (t.procs cur).ofile (t.procs i).ofile fd f
            (subst (λ l. fd < length l) (sym own) lt)
            (ap (λ p. get_or p.ofile fd none) same ∙ there)),
      λ j. dup_files-counts (w.table.procs cur).ofile w.files files j (rw same at e),
      λ j. rw same (idup-counts (w.table.procs cur).cwd w.iref j),
    )

-- The parent's slot is not the one that was taken.
copy_ends :
    (copy : ℕ → ℕ → M (Option ℕ)) (cur i : ℕ) (w : World) (t : Table)
    → Triple Anything (copy (w.table.procs cur).pgdir (w.table.procs cur).sz) Whatever
    → is_state (w.table.procs cur).state unused ≡ false
    → IsOnly i w.table t
    → Triple Anything (copy (t.procs cur).pgdir (t.procs cur).sz) Whatever
unfolding is_state
copy_ends copy cur i w t ends busy only =
    let other : cur ≢ i = λ e. ground (arith, e, busy, only.was_free) in
    subst (λ p. Triple Anything (copy p.pgdir p.sz) Whatever) (sym (only.others cur other)) ends

make_child-Forked :
    (copy : ℕ → ℕ → M (Option ℕ)) (cur : ℕ) (w : World) (r : Option ℕ × Table)
    → Triple Anything (copy (w.table.procs cur).pgdir (w.table.procs cur).sz) Whatever
    → is_state (w.table.procs cur).state unused ≡ false
    → Triple (λ _. Allotted w.table r) (make_child copy cur w r) (λ r' _. Forked cur w r')
unfolding make_child is_state
make_child-Forked copy cur w (none, t) ends busy =
    given (λ h. returns (none, record w { table = t }) (λ m _. (refl, refl, h)))
make_child-Forked copy cur w (some i, t) ends busy = given (λ h.
    bind Whatever (copy_ends copy cur i w t ends busy h.0) (elim [
      | none ↦ bind Whatever (kfree_ends (t.procs i).kstack) (λ _.
          returns (none, record w { table = set_proc i (discarded (t.procs i)) t })
            (λ m _.
              (refl, refl, inr (i, again i w.table t (discarded (t.procs i)) h.0, ground arith))))
      | some d ↦ elim (Option-cases (dup_files (t.procs cur).ofile w.files)) [
        | inl e ↦ rw (e, make_child) (fails filedup_bad)
        | inr (files, e) ↦
            rw (e, make_child)
              (returns
                (
                  some (t.procs i).pid,
                  record {
                    table = set_proc i (child_of cur (t.procs cur) d (t.procs i)) t;
                    files = files;
                    iref = idup (t.procs cur).cwd w.iref;
                  },
                )
                (λ m _. filled cur i d w t files busy h e))
      ]
    ]))

module _ (forkret trapret : ℕ) where
  set_context_ends : (kstack : ℕ) → Triple Anything (set_context forkret trapret kstack) Whatever
  unfolding set_context
  set_context_ends kstack = record { apply = λ m h. tt }

  IsOnly-taken :
      (t t' : Table) (i : ℕ) (p : Proc) → take_slot t ≡ some (i, t') → IsOnly i t (set_proc i p t')
  IsOnly-taken t t' i p e =
      let (free, is) = take_slot-cases t t' i e in
      rw is (record {
        was_free = free;
        others = λ j other. ground (arith, other);
        numbered = refl;
        init = refl;
      })

  stacked :
      (t t' : Table) (i kstack : ℕ)
      → take_slot t ≡ some (i, t')
      → Allotted t (some i, set_proc i (record (t'.procs i) { kstack = kstack }) t')
  unfolding is_state
  stacked t t' i kstack e =
      let is = (take_slot-cases t t' i e).1 in
      (
        IsOnly-taken t t' i (record (t'.procs i) { kstack = kstack }) e,
        ground (arith, is),
        ground (arith, is),
        ground (arith, is),
      )

  allocproc-Allotted :
      (t : Table) → Triple Anything (allocproc forkret trapret t) (λ r _. Allotted t r)
  unfolding allocproc is_state
  allocproc-Allotted t = elim (Option-cases (take_slot t)) [
    | inl e ↦ rw (e, allocproc) (returns (none, t) (λ m h. inl refl))
    | inr ((i, t'), e) ↦
        rw (e, allocproc)
          (bind Whatever kalloc_ends (elim [
            | none ↦
                returns (none, set_proc i (set_state unused (t'.procs i)) t')
                  (λ m h.
                    inr (i, IsOnly-taken t t' i (set_state unused (t'.procs i)) e, ground arith))
            | some kstack ↦ bind Whatever (set_context_ends kstack) (λ done.
                returns (some i, set_proc i (record (t'.procs i) { kstack = kstack }) t')
                  (λ m h. stacked t t' i kstack e))
          ]))
  ]

  fork_by-Forked :
      (copy : ℕ → ℕ → M (Option ℕ)) (cur : ℕ) (w : World)
      → Triple Anything (copy (w.table.procs cur).pgdir (w.table.procs cur).sz) Whatever
      → is_state (w.table.procs cur).state unused ≡ false
      → Triple Anything (fork_by forkret trapret copy cur w) (λ r _. Forked cur w r)
  unfolding fork_by is_state
  fork_by-Forked copy cur w ends busy =
      bind (λ r _. Allotted w.table r) (allocproc-Allotted w.table)
        (λ r. make_child-Forked copy cur w r ends busy)

  -- `fork`, and likewise `forkcow`, by a process of at most KERNBASE bytes whose slot is in use, comes to
  -- an end. Where it returns -1 the files and inode counts are as before, and at most one slot has
  -- changed, which is free. Where it returns a pid, this is the next one, and there is one new slot: a
  -- RUNNABLE child of the caller with that pid, the caller's memory size, current directory and open
  -- files, and 0 as its result; each file has as many references more as the caller has descriptors of
  -- it and is otherwise as before, and the inode of the caller's directory has one more, no other inode
  -- any. All other slots are as before.
  pub fork-Forked :
      (cur : ℕ) (w : World)
      → (w.table.procs cur).sz ≤ kernbase
      → is_state (w.table.procs cur).state unused ≡ false
      → Triple Anything (fork forkret trapret cur w) (λ r _. Forked cur w r)
        × Triple Anything (forkcow forkret trapret cur w) (λ r _. Forked cur w r)
  unfolding fork forkcow
  fork-Forked cur w small busy = (
    fork_by-Forked copyuvm cur w
        (copyuvm_ends (w.table.procs cur).pgdir (w.table.procs cur).sz small) busy,
    fork_by-Forked copyuvmcow cur w
        (copyuvmcow_ends (w.table.procs cur).pgdir (w.table.procs cur).sz small) busy,
  )
