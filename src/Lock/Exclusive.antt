-- ===== src/Lock/Exclusive.antt =====
-- xv6/spinlock.c: who has the lock, and what a CPU that moves on must keep.
use tp2_ronaldo_joaopedro.Common.{
  ℕ, ◌<◌, Bool, true, false, ◌≡◌, refl, ap, sym, ◌∙◌, inl, inr, arith, ◌==◌, update, Bool-cases,
}
use tp2_ronaldo_joaopedro.Lock.{
  Cpu, Spinlock, Phase, outside, taken, inside, leaving, State, move, same_cpu,
}

-- A CPU has the lock from `xchg` on until it gives it up.
abbrev pub has_lock : Phase → Bool
has_lock taken = true
has_lock inside = true
has_lock leaving = true
has_lock _ = false

-- Whether the lock has the CPU on record.
abbrev pub on_record : Phase → Bool
on_record inside = true
on_record _ = false

abbrev pub is_outside : Phase → Bool
is_outside outside = true
is_outside _ = false

pub record IsExclusive (s : State) : Type 0 where
  pub one : (c d : ℕ) → has_lock (s.phase c) ≡ true → has_lock (s.phase d) ≡ true → c ≡ d
  pub locked : (c : ℕ) → has_lock (s.phase c) ≡ true → s.lock.locked ≡ true
  pub owned : s.lock.locked ≡ true → (c : ℕ) × (has_lock (s.phase c) ≡ true)
  pub record_iff : (c : ℕ) → same_cpu s.lock.cpu c ≡ on_record (s.phase c)
  pub quiet :
      (c : ℕ)
      → is_outside (s.phase c) ≡ false
      → ((s.cpus c).interrupts ≡ false) × (0 < (s.cpus c).ncli)

module _ (c : ℕ) (s : State) (v : IsExclusive s) (p : Phase) (u : Cpu) (l : Spinlock) where
  -- A CPU moves on: it is enough to look at that CPU and at the lock.
  pub move-IsExclusive :
      (has_lock p ≡ true → (a : ℕ) → has_lock (s.phase a) ≡ true → c ≡ a)
      → (has_lock p ≡ true → l.locked ≡ true)
      → ((a : ℕ) → (c == a) ≡ false → has_lock (s.phase a) ≡ true → l.locked ≡ true)
      → (l.locked ≡ true → (a : ℕ) × (has_lock (update s.phase c p a) ≡ true))
      → ((a : ℕ) → same_cpu l.cpu a ≡ on_record (update s.phase c p a))
      → (is_outside p ≡ false → (u.interrupts ≡ false) × (0 < u.ncli))
      → IsExclusive (move c p u l s)
  move-IsExclusive alone mine others someone recorded quiet = record {
    one = one;
    locked = locked;
    owned = someone;
    record_iff = recorded;
    quiet = still;
  }
    where
      one :
          (a b : ℕ)
          → has_lock (update s.phase c p a) ≡ true
          → has_lock (update s.phase c p b) ≡ true
          → a ≡ b
      one a b ha hb = elim (Bool-cases (c == a)) [
        | inl ca ↦
            let e : c ≡ a = ground (arith, ca) in
            elim (Bool-cases (c == b)) [
              | inl cb ↦ sym e ∙ ground (arith, cb)
              | inr nb ↦ sym e ∙ alone (rw ca at ha) b (rw nb at hb)
            ]
        | inr na ↦ elim (Bool-cases (c == b)) [
          | inl cb ↦
              let e : c ≡ b = ground (arith, cb) in sym (alone (rw cb at hb) a (rw na at ha)) ∙ e
          | inr nb ↦ v.one a b (rw na at ha) (rw nb at hb)
        ]
      ]

      locked : (a : ℕ) → has_lock (update s.phase c p a) ≡ true → l.locked ≡ true
      locked a h = elim (Bool-cases (c == a)) [
        | inl ca ↦ mine (rw ca at h)
        | inr na ↦ others a na (rw na at h)
      ]

      still :
          (a : ℕ)
          → is_outside (update s.phase c p a) ≡ false
          → ((update s.cpus c u a).interrupts ≡ false) × (0 < (update s.cpus c u a).ncli)
      still a h = elim (Bool-cases (c == a)) [
        | inl ca ↦ rw ca (quiet (rw ca at h))
        | inr na ↦ rw na (v.quiet a (rw na at h))
      ]

  -- The move leaves the lock to who has it, and the record as it is.
  pub same-IsExclusive :
      has_lock p ≡ has_lock (s.phase c)
      → on_record p ≡ on_record (s.phase c)
      → l ≡ s.lock
      → (is_outside p ≡ false → (u.interrupts ≡ false) × (0 < u.ncli))
      → IsExclusive (move c p u l s)
  same-IsExclusive e f same quiet =
      move-IsExclusive (λ h a ha. v.one c a (sym e ∙ h) ha)
        (λ h. ap (λ x. x.locked) same ∙ v.locked c (sym e ∙ h))
        (λ a na ha. ap (λ x. x.locked) same ∙ v.locked a ha)
        (λ h. let (a, ha) = v.owned (sym (ap (λ x. x.locked) same) ∙ h) in (a, kept a ha))
        (λ a. ap (λ x. same_cpu x.cpu a) same ∙ v.record_iff a ∙ recorded a) quiet
    where
      kept : (a : ℕ) → has_lock (s.phase a) ≡ true → has_lock (update s.phase c p a) ≡ true
      kept a ha = elim (Bool-cases (c == a)) [
        | inl ca ↦
            let here : c ≡ a = ground (arith, ca) in
            rw ca (e ∙ ap (λ x. has_lock (s.phase x)) here ∙ ha)
        | inr na ↦ rw na ha
      ]

      recorded : (a : ℕ) → on_record (s.phase a) ≡ on_record (update s.phase c p a)
      recorded a = elim (Bool-cases (c == a)) [
        | inl ca ↦
            let here : c ≡ a = ground (arith, ca) in
            rw ca (ap (λ x. on_record (s.phase x)) (sym here) ∙ sym f)
        | inr na ↦ rw na refl
      ]
