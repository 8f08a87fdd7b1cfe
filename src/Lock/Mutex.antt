-- ===== src/Lock/Mutex.antt =====
-- xv6/spinlock.c: mutual exclusion over the states that the steps of the CPUs reach.
use tp2_ronaldo_joaopedro.Common.{ℕ, true, false, none, ◌≡◌, ◌≢◌, ap, sym, ◌∙◌, arith, ◌==◌}
use tp2_ronaldo_joaopedro.Lock.{
  popcli, initlock, holding, outside, inside, leaving, State, same_cpu, acquire_start,
  release_start, release_finish, Steps,
}
use tp2_ronaldo_joaopedro.Lock.Exclusive.{has_lock, on_record, is_outside, IsExclusive}
use tp2_ronaldo_joaopedro.Lock.Turns.{Steps-IsExclusive}

-- A lock that is initialised, with every CPU outside.
pub record IsFresh (s : State) : Type 0 where
  pub lock : s.lock ≡ initlock
  pub phase : (c : ℕ) → s.phase c ≡ outside

IsFresh-IsExclusive : (s : State) → IsFresh s → IsExclusive s
unfolding initlock
IsFresh-IsExclusive s h = record {
  one = λ c d e f. absurd (ground (arith, sym (ap has_lock (h.phase c)) ∙ e));
  locked = λ c e. absurd (ground (arith, sym (ap has_lock (h.phase c)) ∙ e));
  owned = λ e. absurd (ground (arith, sym (ap (λ l. l.locked) h.lock) ∙ e));
  record_iff = λ c. ap (λ l. same_cpu l.cpu c) h.lock ∙ sym (ap on_record (h.phase c));
  quiet = λ c e. absurd (ground (arith, sym (ap is_outside (h.phase c)) ∙ e));
}

-- What a reached state promises to each CPU.
pub record IsSafe (s : State) : Type 0 where
  -- At most one CPU has the lock, and a lock that is taken is had by one.
  pub one : (c d : ℕ) → has_lock (s.phase c) ≡ true → has_lock (s.phase d) ≡ true → c ≡ d
  pub owned : s.lock.locked ≡ true → (c : ℕ) × (has_lock (s.phase c) ≡ true)
  -- No panic in `acquire` from outside, nor in `release` by who has acquired.
  pub enter : (c : ℕ) → s.phase c ≡ outside → acquire_start c s ≢ none
  pub leave : (c : ℕ) → s.phase c ≡ inside → release_start c s ≢ none
  pub finish : (c : ℕ) → s.phase c ≡ leaving → release_finish c s ≢ none
  -- No interrupt comes while a CPU has the lock or waits for it.
  pub masked : (c : ℕ) → is_outside (s.phase c) ≡ false → (s.cpus c).interrupts ≡ false

-- Over every sequence of steps of any number of CPUs, from a lock that is initialised with every CPU
-- outside, at most one CPU at a time has the lock, a lock that is taken is had by some CPU, neither
-- acquire by a CPU outside nor release by one inside panics, and the interrupts of a CPU are off
-- from acquire to release.
pub Steps-IsSafe : (s s' : State) → IsFresh s → Steps s s' → IsSafe s'
unfolding acquire_start release_start release_finish popcli holding
Steps-IsSafe s s' fresh steps =
    let v = Steps-IsExclusive s s' steps (IsFresh-IsExclusive s fresh) in
    record {
      one = v.one;
      owned = v.owned;
      enter = λ c p e.
          let off : same_cpu s'.lock.cpu c ≡ false = v.record_iff c ∙ ap on_record p in
          absurd (ground (arith, off, e));
      leave = λ c p e.
          let on : same_cpu s'.lock.cpu c ≡ true = v.record_iff c ∙ ap on_record p in
          let held : s'.lock.locked ≡ true = v.locked c (ap has_lock p) in
          absurd (ground (arith, on, held, e));
      finish = λ c p e.
          let (off, nested) = v.quiet c (ap is_outside p) in
          let some_cli : ((s'.cpus c).ncli == 0) ≡ false = ground (arith, nested) in
          absurd (ground (arith, off, some_cli, e));
      masked = λ c h. (v.quiet c h).0;
    }
