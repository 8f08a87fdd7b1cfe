-- ===== src/Proc.antt =====
-- xv6/proc.h and xv6/proc.c: the process table, and the operations that only change it. A process
-- is named by its slot. A loop over the table that treats each slot by itself is one function on
-- slots; a search of it is recursion over the slots that are left. `ptable.lock` is held in each of
-- these operations and is not part of the state.
pub mod Switch
pub mod Fork
pub mod Steps
pub mod OneCpu
pub mod Waiting
pub mod Killed
mod Tests
use tp2_ronaldo_joaopedro.Common.{
  ℕ, zero, suc, ◌+◌, ◌%◌, ◌^◌, Bool, true, false, ◌&&◌, ◌||◌, not, set, Option, none, some, List,
  [], ◌∷◌, ◌==◌, ltb, update, if◌then◌else◌,
}
use tp2_ronaldo_joaopedro.Machine.{add32}

abbrev pub nproc : ℕ
nproc = 64

-- `enum procstate`
pub data ProcState : Type 0 where
  unused embryo sleeping runnable running zombie : ProcState

-- What a process sleeps on: the process table entry of a parent in `wait`, or another address.
pub data Chan : Type 0 where
  proc_chan : ℕ → Chan
  address : ℕ → Chan

-- The saved user registers that the kernel reads or sets.
pub record Trapframe : Type 0 where
  pub eax : ℕ
  pub eip : ℕ
  pub esp : ℕ
  pub trapno : ℕ

-- `struct proc`; a null pointer is `none`, and 0 for `kstack` and `pgdir`.
pub record Proc : Type 0 where
  pub sz : ℕ
  pub pgdir : ℕ
  pub kstack : ℕ
  pub state : ProcState
  pub pid : ℕ
  pub parent : Option ℕ
  pub tf : Trapframe
  pub chan : Option Chan
  pub killed : Bool
  pub ofile : List (Option ℕ)
  pub cwd : Option ℕ
  pub name : List ℕ

abbrev pub Procs : Type 0
Procs = ℕ → Proc

-- `ptable`, `nextpid` and `initproc`.
pub record Table : Type 0 where
  pub procs : Procs
  pub next_pid : ℕ
  pub initproc : ℕ

unfoldable pub is_state : ProcState → ProcState → Bool
is_state unused unused = true
is_state embryo embryo = true
is_state sleeping sleeping = true
is_state runnable runnable = true
is_state running running = true
is_state zombie zombie = true
is_state _ _ = false

-- Equality of addresses.
unfoldable pub same_chan : Chan → Chan → Bool
same_chan (proc_chan i) (proc_chan j) = i == j
same_chan (address a) (address b) = a == b
same_chan (proc_chan i) (address b) = false
same_chan (address a) (proc_chan j) = false

unfoldable pub sleeps_on : Chan → Proc → Bool
sleeps_on c p = is_state p.state sleeping && elim p.chan [ none ↦ false | some d ↦ same_chan d c ]

abbrev pub set_state : ProcState → Proc → Proc
set_state s p = record p { state = s }

unfoldable pub wakeup1 : Chan → Procs → Procs
wakeup1 c procs i = if sleeps_on c (procs i) then set_state runnable (procs i) else procs i

-- The first slot from `i` on with a property, among the `n` that are left.
unfoldable pub find_proc : (Proc → Bool) → Procs → ℕ → ℕ → Option ℕ
find_proc test procs zero i = none
find_proc test procs (suc n) i =
    let rest = find_proc test procs n (i + 1) in if test (procs i) then some i else rest

abbrev pub is_unused : Proc → Bool
is_unused p = is_state p.state unused

-- The part of `allocproc` under the lock: take a slot and number it.
unfoldable pub take_slot : Table → Option (ℕ × Table)
take_slot t = elim (find_proc is_unused t.procs nproc 0) [
  | none ↦ none
  | some i ↦ some (
    i,
    record t {
      procs = update t.procs i (record (t.procs i) { state = embryo; pid = t.next_pid });
      next_pid = add32 t.next_pid 1;
    },
  )
]

abbrev pub has_pid : ℕ → Proc → Bool
has_pid pid p = p.pid == pid

-- The process that `kill` found.
unfoldable pub mark_killed : Proc → Proc
mark_killed p =
    let p' = record p { killed = true } in
    if is_state p.state sleeping then set_state runnable p' else p'

-- `true` is the result 0, `false` is -1.
unfoldable pub kill : ℕ → Table → Bool × Table
kill pid t = elim (find_proc (has_pid pid) t.procs nproc 0) [
  | none ↦ (false, t)
  | some i ↦ (true, record t { procs = update t.procs i (mark_killed (t.procs i)) })
]

abbrev pub is_child : ℕ → Proc → Bool
is_child i p = elim p.parent [ none ↦ false | some j ↦ j == i ]

-- The loop of `exit` that passes the children of `cur` on to init; a zombie child wakes init, whose
-- parent is no child of `cur`.
unfoldable pub pass_children : ℕ → ℕ → ℕ → ℕ → Procs → Procs
pass_children cur init zero i procs = procs
pass_children cur init (suc n) i procs =
    let adopted = update procs i (record (procs i) { parent = some init }) in
    pass_children cur init n (i + 1) (
      if is_child cur (procs i)
      then (if is_state (procs i).state zombie then wakeup1 (proc_chan init) adopted else adopted)
      else procs)

-- The part of `exit` under the lock, up to `sched`; `wakeup1(curproc->parent)` with no parent wakes
-- nobody.
unfoldable pub exit_table : ℕ → Table → Table
exit_table cur t =
    let woken : Procs = elim (t.procs cur).parent [
      | none ↦ t.procs
      | some i ↦ wakeup1 (proc_chan i) t.procs
    ] in
    let passed = pass_children cur t.initproc nproc 0 woken in
    record t { procs = update passed cur (set_state zombie (passed cur)) }

-- What the scan of `wait` finds: the first exited child, or whether there are children at all.
pub data Scan : Type 0 where
  found : ℕ → Scan
  scanned : Bool → Scan

unfoldable pub scan_children : ℕ → Procs → ℕ → ℕ → Bool → Scan
scan_children cur procs zero i havekids = scanned havekids
scan_children cur procs (suc n) i havekids =
    let rest = scan_children cur procs n (i + 1) (havekids || is_child cur (procs i)) in
    if is_child cur (procs i) && is_state (procs i).state zombie then found i else rest

-- What `wait` leaves of a process it has found; its name is made empty.
unfoldable pub reap : Proc → Proc
reap p = record p {
  kstack = 0;
  pid = 0;
  parent = none;
  name = set p.name 0 0;
  killed = false;
  state = unused;
}

-- One round of `wait` on the table: the exited child, or no child to wait for, or the caller is to
-- sleep on its own entry.
pub data Round : Type 0 where
  reaped : ℕ → Round
  no_wait : Round
  must_sleep : Round

unfoldable pub wait_round : ℕ → Procs → Round
wait_round cur procs = elim (scan_children cur procs nproc 0 false) [
  | found i ↦ reaped i
  | scanned havekids ↦ if not havekids || (procs cur).killed then no_wait else must_sleep
]
