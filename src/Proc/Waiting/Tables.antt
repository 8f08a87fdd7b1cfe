-- ===== src/Proc/Waiting/Tables.antt =====
-- The process tables of xv6/proc.c in which no parent sleeps in `wait` while a child of it has
-- exited, and what `exit` and the scan of `wait` do to them.
use tp2_ronaldo_joaopedro.Common.{
  ℕ, zero, suc, ◌+◌, ◌<◌, ◌≤◌, Bool, false, some, ◌≡◌, ◌≢◌, refl, subst, sym, ◌∙◌, ◌⊎◌, inl, inr,
  arith, ◌==◌, update, Bool-cases, Option-cases, ◌&&◌, ◌||◌,
}
use tp2_ronaldo_joaopedro.Proc.{
  Proc, Procs, Table, sleeping, zombie, proc_chan, address, is_state, set_state, wakeup1, is_child,
  pass_children, exit_table, nproc, wait_round, must_sleep, scanned, found, Scan, scan_children,
}
use tp2_ronaldo_joaopedro.Proc.Switch.{with_procs}
use tp2_ronaldo_joaopedro.Proc.Steps.{set_proc}
use tp2_ronaldo_joaopedro.Proc.Waiting.Keeping.{
  IsWaiting, IsDead, Keeps, Keeps-refl, Keeps-trans, update-Keeps, wakeup1-Keeps, wakeup1-wakes,
  pass_children-Keeps,
}
use tp2_ronaldo_joaopedro.Proc.Waiting.Parents.{
  IsRooted, same-IsRooted, update-parent, wakeup1-parent, pass_children-IsRooted,
  pass_children-parent,
}

pub record IsWatched (t : Table) : Type 0 where
  pub rooted : IsRooted t.initproc t.procs
  pub watch :
      (i j : ℕ) → j < nproc → IsWaiting t.procs i → IsDead t.procs j → (t.procs j).parent ≢ some i

pub Keeps-IsWatched :
    (t : Table) (procs : Procs)
    → Keeps t.procs procs
    → IsRooted t.initproc procs
    → IsWatched t
    → IsWatched (with_procs procs t)
Keeps-IsWatched t procs h r v = record {
  rooted = r;
  watch = λ i j small w d e. v.watch i j small (h.waits i w) (h.dead j d) (h.parents i j w d e);
}

-- A slot is rewritten to a process that neither waits nor is dead and has the same parent.
pub slot-IsWatched :
    (t : Table) (i : ℕ) (p : Proc)
    → (is_state p.state sleeping ≡ false) ⊎ ((a : ℕ) × (p.chan ≡ some (address a)))
    → is_state p.state zombie ≡ false
    → p.parent ≡ (t.procs i).parent
    → IsWatched t
    → IsWatched (set_proc i p t)
slot-IsWatched t i p up alive same v =
    Keeps-IsWatched t (update t.procs i p) (update-Keeps t.procs i p up alive)
      (same-IsRooted t.initproc t.procs (update t.procs i p) (update-parent t.procs i p same)
        v.rooted)
      v

no_own_child : (cur : ℕ) (p : Proc) → p.parent ≢ some cur → is_child cur p ≡ false
no_own_child cur p h = ground (arith, h)

-- A process dies whose parent does not wait.
dies-IsWatched :
    (t : Table) (cur : ℕ)
    → ((i : ℕ) → IsWaiting t.procs i → (t.procs cur).parent ≢ some i)
    → IsWatched t
    → IsWatched (set_proc cur (set_state zombie (t.procs cur)) t)
unfolding is_state
dies-IsWatched t cur alone v =
    let p = set_state zombie (t.procs cur) in
    record {
      rooted =
          same-IsRooted t.initproc t.procs (update t.procs cur p) (update-parent t.procs cur p refl)
            v.rooted;
      watch = λ i j small w d e.
          let w' = still_waits i w in
          elim (Bool-cases (cur == j)) [
            | inl here ↦ alone i w' (ground (arith, here, e))
            | inr there ↦ v.watch i j small w' (ground (arith, there, d)) (ground (arith, there, e))
          ];
    }
  where
    still_waits :
        (i : ℕ)
        → IsWaiting (update t.procs cur (set_state zombie (t.procs cur))) i
        → IsWaiting t.procs i
    still_waits i w = record {
      asleep = ground (arith, w.asleep);
      own_chan = ground (arith, w.own_chan, w.asleep);
    }

-- The exit of `cur`, after its parent has been woken.
passes-IsWatched :
    (cur : ℕ) (t : Table) (woken : Procs)
    → Keeps t.procs woken
    → ((j : ℕ) → (woken j).parent ≡ (t.procs j).parent)
    → ((i : ℕ) → IsWaiting woken i → (woken cur).parent ≢ some i)
    → IsWatched t
    → IsWatched (record t {
      procs =
          update
            (pass_children cur t.initproc nproc 0 woken)
            cur
            (set_state zombie (pass_children cur t.initproc nproc 0 woken cur));
    })
passes-IsWatched cur t woken h same alone v =
    let passed = pass_children cur t.initproc nproc 0 woken in
    let keeps = pass_children-Keeps cur t.initproc nproc 0 woken in
    let rooted = same-IsRooted t.initproc t.procs woken same v.rooted in
    let kept : (passed cur).parent ≡ (woken cur).parent =
      pass_children-parent cur t.initproc nproc 0 woken cur
        (no_own_child cur (woken cur) (rooted.own cur)) in
    dies-IsWatched (with_procs passed t) cur (λ i w e. alone i (keeps.waits i w) (sym kept ∙ e))
      (Keeps-IsWatched t passed (Keeps-trans h keeps)
        (pass_children-IsRooted cur t.initproc nproc 0 woken rooted) v)

pub exit_table-IsWatched : (cur : ℕ) (t : Table) → IsWatched t → IsWatched (exit_table cur t)
unfolding exit_table
exit_table-IsWatched cur t v = elim (Option-cases (t.procs cur).parent) [
  | inl e ↦ rw e (
      passes-IsWatched cur t t.procs (Keeps-refl t.procs) (λ j. refl)
        (λ i w e'. ground (arith, e, e')) v)
  | inr (q, e) ↦
      let same = wakeup1-parent (proc_chan q) t.procs in
      rw e (
        passes-IsWatched cur t (wakeup1 (proc_chan q) t.procs) (wakeup1-Keeps (proc_chan q) t.procs)
          same
          (λ i w e'.
            let q_i : q ≡ i = ground (arith, same cur, e, e') in
            wakeup1-wakes q t.procs
              (subst (λ x. IsWaiting (wakeup1 (proc_chan q) t.procs) x) (sym q_i) w))
          v)
]

-- A scan that finds nobody has looked at every child.
scan_children-scanned :
    (cur : ℕ) (procs : Procs) (n i : ℕ) (kids kids' : Bool) (j : ℕ)
    → scan_children cur procs n i kids ≡ scanned kids'
    → i ≤ j
    → j < i + n
    → IsDead procs j
    → (procs j).parent ≢ some cur
unfolding scan_children
scan_children-scanned cur procs zero i kids kids' j e a b d p = omega arith
scan_children-scanned cur procs (suc n) i kids kids' j e a b d p =
    elim (Bool-cases (is_child cur (procs i) && is_state (procs i).state zombie)) [
      | inl here ↦ absurd (ground (arith, here, e))
      | inr there ↦ elim (Bool-cases (i == j)) [
        | inl at_j ↦ ground (arith, there, at_j, d, p)
        | inr past ↦
            scan_children-scanned cur procs n (i + 1) (kids || is_child cur (procs i)) kids' j
              (rw there at e) (ground (arith, past)) (omega arith) d p
      ]
    ]

pub must_sleep-childless :
    (cur : ℕ) (procs : Procs) (j : ℕ)
    → wait_round cur procs ≡ must_sleep
    → j < nproc
    → IsDead procs j
    → (procs j).parent ≢ some cur
unfolding wait_round
must_sleep-childless cur procs j e small d = by_scan (scan_children cur procs nproc 0 false) refl
  where
    by_scan : (s : Scan) → scan_children cur procs nproc 0 false ≡ s → (procs j).parent ≢ some cur
    by_scan (found i) h = absurd (ground (arith, e, h))
    by_scan (scanned kids) h =
        scan_children-scanned cur procs nproc 0 false kids j h (omega arith) (omega arith) d
