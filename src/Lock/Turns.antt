-- ===== src/Lock/Turns.antt =====
-- xv6/spinlock.c: the invariant of the lock over each step of a CPU.
use tp2_ronaldo_joaopedro.Common.{
  ℕ, ◌<◌, Bool, true, false, Option, none, some, ◌≡◌, refl, ap, sym, ◌∙◌, subst, inl, inr, arith,
  ◌==◌, ==_refl, update, if◌then◌else◌, Bool-cases,
}
use tp2_ronaldo_joaopedro.Lock.{
  Cpu, pushcli, popcli, holding, Phase, outside, spinning, taken, inside, leaving, State, move,
  acquire_start, acquire_try, acquire_record, release_start, release_finish, unlocked, Step, enters,
  tries, records, leaves, finishes, nests, unnests, Steps, stay, step,
}
use tp2_ronaldo_joaopedro.Lock.Exclusive.{
  has_lock, on_record, is_outside, IsExclusive, move-IsExclusive, same-IsExclusive,
}

on_record-has_lock : (p : Phase) → on_record p ≡ true → has_lock p ≡ true
on_record-has_lock inside h = refl
on_record-has_lock outside h = absurd (ground (arith, h))
on_record-has_lock spinning h = absurd (ground (arith, h))
on_record-has_lock taken h = absurd (ground (arith, h))
on_record-has_lock leaving h = absurd (ground (arith, h))

popcli_lem :
    (u u' : Cpu) → popcli u ≡ some u' → 1 < u.ncli → (u'.interrupts ≡ false) × (0 < u'.ncli)
unfolding popcli
popcli_lem u u' e h = elim (Bool-cases u.interrupts) [
  | inl on ↦ absurd (ground (arith, on, e))
  | inr off ↦ (ground (arith, off, e, h), ground (arith, off, e, h))
]

module _ (c : ℕ) (s : State) (v : IsExclusive s) where
  -- Who else has the lock is not on record, once `c` has it.
  nobody_else :
      has_lock (s.phase c) ≡ true → (a : ℕ) → (c == a) ≡ false → on_record (s.phase a) ≡ false
  nobody_else h a na = elim (Bool-cases (on_record (s.phase a))) [
    | inl is ↦
        let e : c ≡ a = v.one c a h (on_record-has_lock (s.phase a) is) in
        absurd (ground (arith, na, e))
    | inr off ↦ off
  ]

  enters-IsExclusive :
      (s' : State) → s.phase c ≡ outside → acquire_start c s ≡ some s' → IsExclusive s'
  unfolding acquire_start pushcli
  enters-IsExclusive s' at_phase e = elim (Bool-cases (holding s.lock c)) [
    | inl held ↦ absurd (ground (arith, rw held at e))
    | inr free ↦
        let moved : move c spinning (pushcli (s.cpus c)) s.lock s ≡ s' =
          ground (arith, rw free at e) in
        subst IsExclusive moved (
          same-IsExclusive c s v spinning (pushcli (s.cpus c)) s.lock (ap has_lock (sym at_phase))
            (ap on_record (sym at_phase)) refl (λ h. (refl, omega arith)))
  ]

  tries-IsExclusive : s.phase c ≡ spinning → IsExclusive (acquire_try c s)
  unfolding acquire_try
  tries-IsExclusive at_phase = elim (Bool-cases s.lock.locked) [
    | inl busy ↦ subst IsExclusive (sym (ap turn busy)) v
    | inr free ↦ rw free (
        move-IsExclusive c s v taken (s.cpus c) (record s.lock { locked = true })
          (λ h a ha. absurd (ground (arith, free, v.locked a ha))) (λ h. refl) (λ a na ha. refl)
          (λ h. (c, rw (==_refl c) refl)) (λ a. v.record_iff a ∙ recorded a)
          (λ h. v.quiet c (ap is_outside at_phase)))
  ]
    where
      turn : Bool → State
      turn b = if b then s else move c taken (s.cpus c) (record s.lock { locked = true }) s

      recorded : (a : ℕ) → on_record (s.phase a) ≡ on_record (update s.phase c taken a)
      recorded a = elim (Bool-cases (c == a)) [
        | inl ca ↦
            let here : c ≡ a = ground (arith, ca) in
            rw ca (ap (λ x. on_record (s.phase x)) (sym here) ∙ ap on_record at_phase)
        | inr na ↦ rw na refl
      ]

  records-IsExclusive : s.phase c ≡ taken → IsExclusive (acquire_record c s)
  unfolding acquire_record
  records-IsExclusive at_phase =
      move-IsExclusive c s v inside (s.cpus c) (record s.lock { cpu = some c })
        (λ h a ha. v.one c a has ha) (λ h. v.locked c has) (λ a na ha. v.locked a ha)
        (λ h. (c, rw (==_refl c) refl)) recorded (λ h. v.quiet c (ap is_outside at_phase))
    where
      has : has_lock (s.phase c) ≡ true
      has = ap has_lock at_phase

      recorded : (a : ℕ) → (c == a) ≡ on_record (update s.phase c inside a)
      recorded a = elim (Bool-cases (c == a)) [
        | inl ca ↦ rw ca refl
        | inr na ↦ rw na (sym (nobody_else has a na))
      ]

  leaves-IsExclusive :
      (s' : State) → s.phase c ≡ inside → release_start c s ≡ some s' → IsExclusive s'
  unfolding release_start
  leaves-IsExclusive s' at_phase e = elim (Bool-cases (holding s.lock c)) [
    | inr lost ↦ absurd (ground (arith, rw lost at e))
    | inl held ↦
        let moved : move c leaving (s.cpus c) (record s.lock { cpu = none }) s ≡ s' =
          ground (arith, rw held at e) in
        subst IsExclusive moved (
          move-IsExclusive c s v leaving (s.cpus c) (record s.lock { cpu = none })
            (λ h a ha. v.one c a has ha) (λ h. v.locked c has) (λ a na ha. v.locked a ha)
            (λ h. (c, rw (==_refl c) refl)) recorded (λ h. v.quiet c (ap is_outside at_phase)))
  ]
    where
      has : has_lock (s.phase c) ≡ true
      has = ap has_lock at_phase

      recorded : (a : ℕ) → false ≡ on_record (update s.phase c leaving a)
      recorded a = elim (Bool-cases (c == a)) [
        | inl ca ↦ rw ca refl
        | inr na ↦ rw na (sym (nobody_else has a na))
      ]

  finishes-IsExclusive :
      (s' : State) → s.phase c ≡ leaving → release_finish c s ≡ some s' → IsExclusive s'
  unfolding release_finish
  finishes-IsExclusive s' at_phase e = by_pop (popcli (s.cpus c)) e
    where
      has : has_lock (s.phase c) ≡ true
      has = ap has_lock at_phase

      recorded : (a : ℕ) → on_record (s.phase a) ≡ on_record (update s.phase c outside a)
      recorded a = elim (Bool-cases (c == a)) [
        | inl ca ↦
            let here : c ≡ a = ground (arith, ca) in
            rw ca (ap (λ x. on_record (s.phase x)) (sym here) ∙ ap on_record at_phase)
        | inr na ↦ rw na refl
      ]

      by_pop : (o : Option Cpu) → unlocked c s o ≡ some s' → IsExclusive s'
      by_pop none w = absurd (ground (arith, w))
      by_pop (some u) w =
          let moved : move c outside u (record s.lock { locked = false }) s ≡ s' =
            ground (arith, w) in
          subst IsExclusive moved (
            move-IsExclusive c s v outside u (record s.lock { locked = false })
              (λ h a ha. absurd (ground (arith, h))) (λ h. absurd (ground (arith, h)))
              (λ a na ha. let same : c ≡ a = v.one c a has ha in absurd (ground (arith, na, same)))
              (λ h. absurd (ground (arith, h))) (λ a. v.record_iff a ∙ recorded a)
              (λ h. absurd (ground (arith, h))))

pushcli_lem : (u : Cpu) → ((pushcli u).interrupts ≡ false) × (0 < (pushcli u).ncli)
unfolding pushcli
pushcli_lem u = (refl, omega arith)

Step-IsExclusive : (s s' : State) → Step s s' → IsExclusive s → IsExclusive s'
Step-IsExclusive s s' (enters c _ _ p e) v = enters-IsExclusive c s v s' p e
Step-IsExclusive s s' (tries c _ p) v = tries-IsExclusive c s v p
Step-IsExclusive s s' (records c _ p) v = records-IsExclusive c s v p
Step-IsExclusive s s' (leaves c _ _ p e) v = leaves-IsExclusive c s v s' p e
Step-IsExclusive s s' (finishes c _ _ p e) v = finishes-IsExclusive c s v s' p e
Step-IsExclusive s s' (nests c _ p) v =
    same-IsExclusive c s v inside (pushcli (s.cpus c)) s.lock (ap has_lock (sym p))
      (ap on_record (sym p)) refl (λ h. pushcli_lem (s.cpus c))
Step-IsExclusive s s' (unnests c _ u p more e) v =
    same-IsExclusive c s v inside u s.lock (ap has_lock (sym p)) (ap on_record (sym p)) refl
      (λ h. popcli_lem (s.cpus c) u e more)

pub Steps-IsExclusive : (s s' : State) → Steps s s' → IsExclusive s → IsExclusive s'
Steps-IsExclusive s s' (stay _) v = v
Steps-IsExclusive s s' (step _ t _ now later) v =
    Steps-IsExclusive t s' later (Step-IsExclusive s t now v)
