-- ===== src/Proc/Killed.antt =====
-- `kill` in xv6/proc.c: whom it marks, slots without a process among them, and what `allocproc` makes of
-- the mark.
use tp2_ronaldo_joaopedro.Common.{
  ℕ, zero, suc, ◌+◌, ◌<◌, ◌≤◌, Bool, true, false, none, some, ◌≡◌, ◌≢◌, refl, ◌∙◌, ◌⊎◌, inl, inr,
  arith, ◌==◌, update, Bool-cases, Option-cases,
}
use tp2_ronaldo_joaopedro.Proc.{
  Proc, Procs, Table, sleeping, is_state, find_proc, has_pid, is_unused, kill, mark_killed,
  take_slot, nproc,
}
use tp2_ronaldo_joaopedro.Proc.Steps.{taken, find_proc-some}

find_proc-same :
    (test test' : Proc → Bool) (procs procs' : Procs) (n i : ℕ)
    → ((j : ℕ) → test (procs j) ≡ test' (procs' j))
    → find_proc test procs n i ≡ find_proc test' procs' n i
unfolding find_proc
find_proc-same test test' procs procs' zero i h = refl
find_proc-same test test' procs procs' (suc n) i h =
    rw (h i, find_proc-same test test' procs procs' n (i + 1) h) refl

find_proc-none :
    (test : Proc → Bool) (procs : Procs) (n i j : ℕ)
    → find_proc test procs n i ≡ none
    → i ≤ j
    → j < i + n
    → test (procs j) ≡ false
unfolding find_proc
find_proc-none test procs zero i j e a b = absurd (omega arith)
find_proc-none test procs (suc n) i j e a b = elim (Bool-cases (test (procs i))) [
  | inl here ↦ absurd (ground (arith, here, e))
  | inr there ↦ elim (Bool-cases (i == j)) [
    | inl at_j ↦ ground (arith, there, at_j)
    | inr past ↦
        find_proc-none test procs n (i + 1) j (rw there at e) (ground (arith, past)) (omega arith)
  ]
]

-- kill of a pid either marks one slot with that pid as killed, leaves it asleep no longer,
-- changes no other slot and returns 0, or it returns -1, nothing changes and no slot of the table
-- has the pid.
pub kill_lem :
    (pid : ℕ) (t : Table)
    → ((kill pid t ≡ (false, t)) × ((j : ℕ) → j < nproc → (t.procs j).pid ≢ pid))
      ⊎ ((i : ℕ) × ((t.procs i).pid ≡ pid)
          × ((kill pid t).0 ≡ true)
          × (((kill pid t).1.procs i).killed ≡ true)
          × (is_state ((kill pid t).1.procs i).state sleeping ≡ false)
          × ((j : ℕ) → j ≢ i → (kill pid t).1.procs j ≡ t.procs j))
unfolding kill mark_killed is_state
kill_lem pid t = elim (Option-cases (find_proc (has_pid pid) t.procs nproc 0)) [
  | inl e ↦ inl (
    rw (e, kill) refl,
    λ j small h.
        ground (arith, h, find_proc-none (has_pid pid) t.procs nproc 0 j e (omega arith) small),
  )
  | inr (i, e) ↦ inr (
    i,
    ground (arith, find_proc-some (has_pid pid) t.procs nproc 0 i e),
    rw (e, kill) refl,
    rw (e, kill) (ground arith),
    rw (e, kill) (ground arith),
    λ j other. rw (e, kill) (ground (arith, other)),
  )
]

-- The slots that hold no process are those with pid 0, as `wait` leaves them.
abbrev pub IsPlain : Table → Type 0
IsPlain t = (i : ℕ) → has_pid 0 (t.procs i) ≡ is_unused (t.procs i)

marked : ℕ → Table → Table
marked i t = record t { procs = update t.procs i (mark_killed (t.procs i)) }

kill-found :
    (pid i : ℕ) (t : Table)
    → find_proc (has_pid pid) t.procs nproc 0 ≡ some i
    → kill pid t ≡ (true, marked i t)
unfolding kill marked
kill-found pid i t e = rw (e, kill) refl

take_slot-found :
    (t : Table) (i : ℕ)
    → find_proc is_unused t.procs nproc 0 ≡ some i
    → take_slot t ≡ some (i, taken i t)
unfolding take_slot
take_slot-found t i e = rw (e, take_slot) refl

take_slot-finds :
    (t t' : Table) (i : ℕ)
    → take_slot t ≡ some (i, t')
    → find_proc is_unused t.procs nproc 0 ≡ some i
unfolding take_slot
take_slot-finds t t' i e = elim (Option-cases (find_proc is_unused t.procs nproc 0)) [
  | inl nobody ↦ absurd (ground (arith, e, nobody))
  | inr (j, found_at) ↦ ground (arith, e, found_at)
]

-- A mark leaves a free slot free.
marked-unused : (t : Table) (i j : ℕ) → is_unused ((marked i t).procs j) ≡ is_unused (t.procs j)
unfolding marked mark_killed is_state
marked-unused t i j = ground arith

-- Where the free slots are exactly those with pid 0 and allocproc would find one, kill of pid 0
-- returns 0, and allocproc then sets up the same slot, marked as killed.
pub kill-zero :
    (t t' : Table) (i : ℕ)
    → IsPlain t
    → take_slot t ≡ some (i, t')
    → ((kill 0 t).0 ≡ true)
      × ((t'' : Table) × (take_slot (kill 0 t).1 ≡ some (i, t'')) × ((t''.procs i).killed ≡ true))
unfolding marked mark_killed
kill-zero t t' i plain e =
    let free = take_slot-finds t t' i e in
    let hit = find_proc-same (has_pid 0) is_unused t.procs t.procs nproc 0 plain ∙ free in
    let again =
      find_proc-same is_unused is_unused (marked i t).procs t.procs nproc 0 (marked-unused t i)
      ∙ free in
    rw (kill-found 0 i t hit)
      (refl, (taken i (marked i t), take_slot-found (marked i t) i again, ground arith))
