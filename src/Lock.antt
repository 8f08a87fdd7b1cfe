-- ===== src/Lock.antt =====
-- xv6/spinlock.c and sleeplock.c: a spin lock and the CPUs that contend for it, and sleep locks. A CPU
-- goes through `acquire` and `release` in steps, so that the CPUs can run between them.
pub mod Exclusive
pub mod Turns
pub mod Mutex
mod Tests
use tp2_ronaldo_joaopedro.Common.{
  ℕ, ◌+◌, ◌-◌, ◌<◌, ◌≡◌, Bool, true, false, not, ◌&&◌, Option, none, some, ◌==◌, update,
  if◌then◌else◌,
}

-- `struct cpu`: the interrupt flag of the CPU's `eflags`, and the nesting of `pushcli`.
pub record Cpu : Type 0 where
  pub interrupts : Bool
  pub ncli : ℕ
  pub intena : Bool

unfoldable pub pushcli : Cpu → Cpu
pushcli u = record {
  interrupts = false;
  ncli = u.ncli + 1;
  intena = if u.ncli == 0 then u.interrupts else u.intena;
}

-- `none` is a panic.
unfoldable pub popcli : Cpu → Option Cpu
popcli u =
    if u.interrupts
    then none
    else if u.ncli == 0
    then none
    else some (record u { ncli = u.ncli - 1; interrupts = (u.ncli == 1) && u.intena })

-- `struct spinlock`
pub record Spinlock : Type 0 where
  pub locked : Bool
  pub cpu : Option ℕ

unfoldable pub initlock : Spinlock
initlock = record { locked = false; cpu = none }

abbrev same_cpu : Option ℕ → ℕ → Bool
same_cpu none c = false
same_cpu (some d) c = d == c

unfoldable pub holding : Spinlock → ℕ → Bool
holding l c = l.locked && same_cpu l.cpu c

-- Where a CPU stands: outside; in the loop of `xchg`; with the lock, before it has recorded that; with the
-- lock; in `release`, before the lock is given up.
pub data Phase : Type 0 where
  outside spinning taken inside leaving : Phase

pub record State : Type 0 where
  pub lock : Spinlock
  pub cpus : ℕ → Cpu
  pub phase : ℕ → Phase

abbrev pub move : ℕ → Phase → Cpu → Spinlock → State → State
move c p u l s = record { lock = l; cpus = update s.cpus c u; phase = update s.phase c p }

-- `acquire` up to its loop; `none` is the panic.
unfoldable pub acquire_start : ℕ → State → Option State
unfolding pushcli holding
acquire_start c s =
    if holding s.lock c then none else some (move c spinning (pushcli (s.cpus c)) s.lock s)

-- One turn of the loop: `xchg` sets the lock and gives its old value.
unfoldable pub acquire_try : ℕ → State → State
acquire_try c s =
    if s.lock.locked then s else move c taken (s.cpus c) (record s.lock { locked = true }) s

-- `lk->cpu = mycpu()`
unfoldable pub acquire_record : ℕ → State → State
acquire_record c s = move c inside (s.cpus c) (record s.lock { cpu = some c }) s

-- `release` before it gives the lock up; `none` is the panic.
unfoldable pub release_start : ℕ → State → Option State
unfolding holding
release_start c s =
    if not (holding s.lock c)
    then none
    else some (move c leaving (s.cpus c) (record s.lock { cpu = none }) s)

abbrev unlocked : ℕ → State → Option Cpu → Option State
unlocked c s none = none
unlocked c s (some u) = some (move c outside u (record s.lock { locked = false }) s)

-- The rest of `release`, with `popcli`.
unfoldable pub release_finish : ℕ → State → Option State
unfolding popcli
release_finish c s = unlocked c s (popcli (s.cpus c))

-- Steps of the CPUs. Other code of a CPU may turn interrupts off for a while, in pairs: it gives back
-- no more than it took.
pub data Step : State → State → Type 0 where
  enters : (c : ℕ) (s s' : State) → s.phase c ≡ outside → acquire_start c s ≡ some s' → Step s s'
  tries : (c : ℕ) (s : State) → s.phase c ≡ spinning → Step s (acquire_try c s)
  records : (c : ℕ) (s : State) → s.phase c ≡ taken → Step s (acquire_record c s)
  leaves : (c : ℕ) (s s' : State) → s.phase c ≡ inside → release_start c s ≡ some s' → Step s s'
  finishes : (c : ℕ) (s s' : State) → s.phase c ≡ leaving → release_finish c s ≡ some s' → Step s s'
  nests :
      (c : ℕ) (s : State)
      → s.phase c ≡ inside
      → Step s (move c inside (pushcli (s.cpus c)) s.lock s)
  unnests :
      (c : ℕ) (s : State) (u : Cpu)
      → s.phase c ≡ inside
      → 1 < (s.cpus c).ncli
      → popcli (s.cpus c) ≡ some u
      → Step s (move c inside u s.lock s)

pub data Steps : State → State → Type 0 where
  stay : (s : State) → Steps s s
  step : (s s' s'' : State) → Step s s' → Steps s' s'' → Steps s s''

-- `struct sleeplock`; a process is named by its pid.
pub record Sleeplock : Type 0 where
  pub locked : Bool
  pub pid : ℕ

unfoldable pub initsleeplock : Sleeplock
initsleeplock = record { locked = false; pid = 0 }

-- One turn of the loop of `acquiresleep`; `none` is the sleep.
unfoldable pub acquiresleep : ℕ → Sleeplock → Option Sleeplock
acquiresleep pid l = if l.locked then none else some (record { locked = true; pid = pid })

unfoldable pub releasesleep : Sleeplock → Sleeplock
releasesleep l = record { locked = false; pid = 0 }

unfoldable pub holdingsleep : Sleeplock → Bool
holdingsleep l = l.locked
