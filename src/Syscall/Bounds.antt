-- ===== src/Syscall/Bounds.antt =====
-- xv6/syscall.c: which arguments are let through.
use tp2_ronaldo_joaopedro.Common.{
  ℕ, zero, suc, ◌+◌, ◌-◌, ◌^◌, ◌<◌, ◌≤◌, true, false, ◌||◌, Option, none, some, ◌≡◌, ◌≢◌, ◌⊎◌, ◌↔◌,
  refl, ap, sym, ◌∙◌, inl, inr, arith, ◌==◌, ltb, leb, if◌then◌else◌, Bool-cases,
}
use tp2_ronaldo_joaopedro.Machine.{add32, kernbase}
use tp2_ronaldo_joaopedro.Syscall.{
  Caller, scan, fetchstr, argint, checked, argptr, string_at, argstr,
}

-- A string of `n` bytes, ended by a zero, at an address of the caller.
pub record IsString (p : Caller) (addr n : ℕ) : Type 0 where
  pub inside : addr + n < p.sz
  pub bytes : (k : ℕ) → k < n → p.memory (addr + k) ≢ 0
  pub end : p.memory (addr + n) ≡ 0

-- What the scan for a zero in `left` bytes comes to.
abbrev Scanned : (ℕ → ℕ) → ℕ → ℕ → Option ℕ → Type 0
Scanned m s left none = (k : ℕ) → k < left → m (s + k) ≢ 0
Scanned m s left (some n) = (n < left) × ((k : ℕ) → k < n → m (s + k) ≢ 0) × (m (s + n) ≡ 0)

-- A byte that is not zero, before bytes of which that is known.
before :
    (m : ℕ → ℕ) (s n : ℕ)
    → m s ≢ 0
    → ((k : ℕ) → k < n → m (s + 1 + k) ≢ 0)
    → (k : ℕ) → k < suc n
    → m (s + k) ≢ 0
before m s n h hs zero p e = h (ap m (omega arith) ∙ e)
before m s n h hs (suc k) p e = hs k (omega arith) (ap m (omega arith) ∙ e)

scan-Scanned : (m : ℕ → ℕ) (s left : ℕ) → Scanned m s left (scan m s left)
unfolding scan
scan-Scanned m s zero = λ k p. absurd (omega arith)
scan-Scanned m s (suc left) = elim (Bool-cases (m s == 0)) [
  | inl here ↦
      let e : m s ≡ 0 = ground (arith, here) in
      rw here (omega arith, (λ k p. absurd (omega arith)), ap m (omega arith) ∙ e)
  | inr other ↦ rw other (
      later (scan m (s + 1) left) (scan-Scanned m (s + 1) left)
        (λ e. absurd (ground (arith, other, e))))
]
  where
    later :
        (o : Option ℕ)
        → Scanned m (s + 1) left o
        → m s ≢ 0
        → Scanned m s (suc left) (elim o [ none ↦ none | some n ↦ some (n + 1) ])
    later none h ne = before m s left ne h
    later (some n) h ne = (
      omega (arith, h.0),
      (λ k p. before m s n ne h.1 k (omega (arith, p))),
      ap m (omega arith) ∙ h.2,
    )

fetchstr-out : (p : Caller) (addr : ℕ) → leb p.sz addr ≡ true → fetchstr p addr ≡ none
unfolding fetchstr
fetchstr-out p addr h = rw h refl

fetchstr-in :
    (p : Caller) (addr : ℕ)
    → leb p.sz addr ≡ false
    → fetchstr p addr ≡ scan p.memory addr (p.sz - addr)
unfolding fetchstr
fetchstr-in p addr h = rw h refl

-- argstr lets through exactly the strings that end in the memory of the caller, for a caller below
-- KERNBASE: where it returns an address and a length, the bytes there are a string of that length; where it
-- returns -1, the argument is not in the memory, or no zero comes after the address it gives.
pub argstr-IsString :
    (p : Caller) (n : ℕ)
    → p.sz ≤ kernbase
    → ((addr : ℕ) × (len : ℕ) × (argstr p n ≡ some (addr, len))
        × (argint p n ≡ some addr)
        × IsString p addr len)
      ⊎ ((argstr p n ≡ none)
          × ((addr : ℕ) → argint p n ≡ some addr → (k : ℕ) → addr ≤ k → k < p.sz → p.memory k ≢ 0))
unfolding argstr
argstr-IsString p n low = by_argument (argint p n) refl
  where
    Result : Type 0
    Result =
        ((addr : ℕ) × (len : ℕ) × (argstr p n ≡ some (addr, len))
          × (argint p n ≡ some addr)
          × IsString p addr len)
        ⊎ ((argstr p n ≡ none)
            × ((addr : ℕ)
                → argint p n ≡ some addr
                → (k : ℕ) → addr ≤ k
                → k < p.sz
                → p.memory k ≢ 0))

    by_scan :
        (addr : ℕ)
        → argint p n ≡ some addr
        → addr < p.sz
        → fetchstr p addr ≡ scan p.memory addr (p.sz - addr)
        → (o : Option ℕ) → scan p.memory addr (p.sz - addr) ≡ o
        → Scanned p.memory addr (p.sz - addr) o
        → Result
    by_scan addr is lt e none found h = inr (
      rw (is, argstr) (rw (e ∙ found, string_at) refl),
      λ a is' k from_a under z.
          let same : addr ≡ a = ground (arith, is, is') in
          let place : addr + (k - addr) ≡ k = omega (arith, same, from_a) in
          h (k - addr) (omega (arith, same, from_a, under)) (ap p.memory place ∙ z),
    )
    by_scan addr is lt e (some len) found h = inl (
      addr,
      len,
      rw (is, argstr) (rw (e ∙ found, string_at) refl),
      is,
      record { inside = omega (arith, h.0); bytes = h.1; end = h.2 },
    )

    by_argument : (o : Option ℕ) → argint p n ≡ o → Result
    by_argument none is =
        inr (rw (is, argstr) refl, λ a is' k from_a under. absurd (ground (arith, is, is')))
    by_argument (some addr) is = elim (Bool-cases (leb p.sz addr)) [
      | inl out ↦ inr (
        rw (is, argstr) (rw (fetchstr-out p addr out, string_at) refl),
        λ a is' k from_a under.
            let same : addr ≡ a = ground (arith, is, is') in
            absurd (ground (arith, out, same, from_a, under)),
      )
      | inr in_memory ↦
          by_scan addr is (ground (arith, in_memory)) (fetchstr-in p addr in_memory)
            (scan p.memory addr (p.sz - addr)) refl (scan-Scanned p.memory addr (p.sz - addr))
    ]

-- What `argptr` lets through: an argument that is read from the caller's memory, and so many bytes
-- from it on that lie there.
pub record IsBlock (p : Caller) (n size i : ℕ) : Type 0 where
  pub argument : argint p n ≡ some i
  pub positive : size < 2 ^ 31
  pub start : i < p.sz
  pub finish : i + size ≤ p.sz

-- argptr lets through exactly the blocks of memory that lie in the caller, for a caller below KERNBASE: a
-- block whose address is an argument that can be read, of a size that is no negative number, from
-- an address in the memory to an end in it, whatever wraps around in 32 bits.
pub argptr-IsBlock :
    (p : Caller) (n size i : ℕ) → p.sz ≤ kernbase → (argptr p n size ≡ some i) ↔ IsBlock p n size i
unfolding argptr
argptr-IsBlock p n size i low = (to (argint p n) refl, from)
  where
    let_through :
        (j : ℕ)
        → (if leb (2 ^ 31) size || leb p.sz j || ltb p.sz (add32 j size) then none else some j)
          ≡ some i
        → (j ≡ i) × (size < 2 ^ 31) × (j < p.sz) × (j + size ≤ p.sz)
    let_through j e =
        elim (Bool-cases (leb (2 ^ 31) size || leb p.sz j || ltb p.sz (add32 j size))) [
          | inl bad ↦ absurd (ground (arith, rw bad at e))
          | inr good ↦
              let same : j ≡ i = ground (arith, rw good at e) in
              (same, ground (arith, good), ground (arith, good), ground (arith, good, low))
        ]

    to : (o : Option ℕ) → argint p n ≡ o → checked p size (argint p n) ≡ some i → IsBlock p n size i
    to none is e = absurd (ground (arith, sym (ap (checked p size) is) ∙ e))
    to (some j) is e =
        let (same, positive, start, finish) = let_through j (sym (ap (checked p size) is) ∙ e) in
        record {
          argument = is ∙ ap some same;
          positive = positive;
          start = omega (arith, same, start);
          finish = omega (arith, same, finish);
        }

    from : IsBlock p n size i → checked p size (argint p n) ≡ some i
    from h =
        let good : (leb (2 ^ 31) size || leb p.sz i || ltb p.sz (add32 i size)) ≡ false =
          ground (arith, h.positive, h.start, h.finish, low) in
        ap (checked p size) h.argument ∙ rw good refl
