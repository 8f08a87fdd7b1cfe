-- ===== src/Vm/Cow/Isolation.antt =====
-- `pagefault` in vm.c: what a fault on a shared page does for the process and to the rest of the memory.
use tp2_ronaldo_joaopedro.Common.{
  ℕ, ◌%◌, ◌<◌, ◌≤◌, bit_and, bit_or, true, some, List, [], ◌∷◌, All, All-uncons, ◌≡◌, ◌≢◌, ◌==◌,
  ==_refl, ==_ne, false, refl, ap, sym, ◌∙◌, ◌+◌, ◌/◌, arith, ◌⊎◌, inl, inr, update, written,
}
use native.Mathlib.Decide.{dec_lt}
use tp2_ronaldo_joaopedro.Machine.{Machine, Outcome, ok, kernbase, v2p}
use tp2_ronaldo_joaopedro.Kalloc.{head_of}
use tp2_ronaldo_joaopedro.Vm.Pte.{pte_p, pte_w, pte_u, not_cow, pte_addr, has}
use tp2_ronaldo_joaopedro.Vm.Pte.Flags.{
  clear_cow-addr, clear_cow-p, clear_cow-u, has-bit_or, addr-bit_or,
}
use tp2_ronaldo_joaopedro.Bits.{bit_or-zero, bit_and_page}
use tp2_ronaldo_joaopedro.Vm.Walk.{Slot}
use tp2_ronaldo_joaopedro.Vm.Walk.Frame.{addr-v2p, v2p_page}
use tp2_ronaldo_joaopedro.Vm.Walk.Lookup.{slot_of, walkpgdir-lookup}
use tp2_ronaldo_joaopedro.Vm.Cow.{Fault, resumed, cow_fault, user_fault, pagefault}
use tp2_ronaldo_joaopedro.Vm.Cow.PageFault.{
  entry, sharers, reused, copied, cow_fault_last, cow_fault_copies, cow_fault_full, cow_fault_bad,
}

-- The two ways in which a fault resumes.
Resumes : Machine → ℕ → Slot → Machine → Type 0
Resumes m pgdir slot m' =
    ((sharers m (pte_addr (entry m slot)) ≡ 1) × (m' ≡ reused m pgdir slot))
    ⊎ ((v : ℕ) × (rest : List ℕ) × (m.freelist ≡ v ∷ rest)
        × (1 < sharers m (pte_addr (entry m slot)))
        × (sharers m (pte_addr (entry m slot)) < 128)
        × (m' ≡ copied m pgdir slot v rest))

ok-injective :
    {m m' : Machine} {f f' : Fault}
    → ◌≡◌ {A = Outcome Fault} (ok f m) (ok f' m')
    → (f ≡ f') × (m ≡ m')
ok-injective e = (cc, cc)

-- A `char` count is 1, more, or not positive (a pattern from 128 up is negative).
char_cases : (c : ℕ) → (c ≡ 1) ⊎ ((1 < c) × (c < 128)) ⊎ (c ≡ 0) ⊎ (128 ≤ c)
char_cases c = elim (dec_lt c 2) [
  | yes small ↦ elim (dec_lt c 1) [
    | yes unused ↦ inr (inr (inl (omega arith)))
    | no one ↦ inl (omega arith)
  ]
  | no big ↦ elim (dec_lt c 128) [
    | yes fits ↦ inr (inl (omega arith))
    | no negative ↦ inr (inr (inr (omega arith)))
  ]
]

resume_cases :
    (m : Machine) (pgdir : ℕ) (slot : Slot) (m' : Machine)
    → cow_fault pgdir slot m ≡ ok resumed m'
    → Resumes m pgdir slot m'
unfolding Resumes
resume_cases m pgdir slot m' h = elim (char_cases (sharers m (pte_addr (entry m slot)))) [
  | inl one ↦ inl (one, cc (cow_fault_last m pgdir slot one))
  | inr (inl (more, fits)) ↦ by_list m.freelist refl more fits
  | inr (inr bad) ↦ absurd (cc (cow_fault_bad m pgdir slot (ground arith) bad))
]
  where
    by_list :
        (l : List ℕ)
        → m.freelist ≡ l
        → 1 < sharers m (pte_addr (entry m slot))
        → sharers m (pte_addr (entry m slot)) < 128
        → Resumes m pgdir slot m'
    by_list [] e more fits = absurd (cc (cow_fault_full m pgdir slot e more fits))
    by_list (v ∷ rest) e more fits =
        inr (v, rest, e, more, fits, cc (cow_fault_copies m pgdir slot v rest e more fits))

-- Free pages are pages, and none of them is the page table of `slot` or the page it leads to; nor
-- is the table a user page.
pub record Separate (m : Machine) (slot : Slot) : Type 0 where
  pub free :
      All (λ v. (v % 4096 ≡ 0) × (v2p v ≢ slot.page) × (v2p v ≢ pte_addr (entry m slot))) m.freelist
  pub table : slot.page ≢ pte_addr (entry m slot)

-- What a resumed fault has done for the process, and not done to the others.
pub record Isolated (m : Machine) (slot : Slot) (m' : Machine) : Type 0 where
  pub writable : has (entry m' slot) pte_w ≡ true
  pub present : has (entry m slot) pte_p ≡ true → has (entry m' slot) pte_p ≡ true
  pub user : has (entry m slot) pte_u ≡ true → has (entry m' slot) pte_u ≡ true
  pub same_view :
      (j : ℕ) → m'.words (pte_addr (entry m' slot)) j ≡ m.words (pte_addr (entry m slot)) j
  pub others_keep :
      (q j : ℕ) → q ≢ slot.page → q ≢ v2p (head_of m.freelist) → m'.words q j ≡ m.words q j
  pub last_keeps :
      sharers m (pte_addr (entry m slot)) ≡ 1
      → (m'.pg_refcount ≡ m.pg_refcount)
        × (m'.freelist ≡ m.freelist)
        × ((q j : ℕ) → q ≢ slot.page → m'.words q j ≡ m.words q j)
  pub shared_counts :
      1 < sharers m (pte_addr (entry m slot))
      → (m.freelist ≡ head_of m.freelist ∷ m'.freelist)
        × (pte_addr (entry m' slot) ≡ v2p (head_of m.freelist))
        × (sharers m' (pte_addr (entry m slot)) + 1 ≡ sharers m (pte_addr (entry m slot)))
        × (sharers m' (v2p (head_of m.freelist)) ≡ (sharers m (v2p (head_of m.freelist)) + 1) % 256)
        × ((n : ℕ)
            → n ≢ pte_addr (entry m slot) / 4096
            → n ≢ v2p (head_of m.freelist) / 4096
            → m'.pg_refcount n ≡ m.pg_refcount n)
  pub own_page :
      1 < sharers m (pte_addr (entry m slot)) → pte_addr (entry m' slot) ≢ pte_addr (entry m slot)

user_bits : ℕ → ℕ
user_bits page = bit_or (bit_or (bit_or page pte_p) pte_w) pte_u

user_bits_lem :
    (page : ℕ)
    → (has (user_bits page) pte_p ≡ true)
      × (has (user_bits page) pte_w ≡ true)
      × (has (user_bits page) pte_u ≡ true)
unfolding user_bits has
user_bits_lem page = (
  rw
      (
        has-bit_or (bit_or (bit_or page pte_p) pte_w) pte_u pte_p,
        has-bit_or (bit_or page pte_p) pte_w pte_p,
        has-bit_or page pte_p pte_p,
      )
      (ground arith),
  rw
      (
        has-bit_or (bit_or (bit_or page pte_p) pte_w) pte_u pte_w,
        has-bit_or (bit_or page pte_p) pte_w pte_w,
      )
      (ground arith),
  rw (has-bit_or (bit_or (bit_or page pte_p) pte_w) pte_u pte_u) (ground arith),
)

addr-user_bits : (page : ℕ) → pte_addr page ≡ page → pte_addr (user_bits page) ≡ page
unfolding user_bits pte_addr
addr-user_bits page h =
    rw
      (
        addr-bit_or (bit_or (bit_or page pte_p) pte_w) pte_u,
        addr-bit_or (bit_or page pte_p) pte_w,
        addr-bit_or page pte_p,
        h,
        bit_or-zero page,
        bit_or-zero page,
      )
      (bit_or-zero page)

reused_bits :
    (w : ℕ)
    → (has (bit_or (bit_and w not_cow) pte_w) pte_w ≡ true)
      × (has (bit_or (bit_and w not_cow) pte_w) pte_p ≡ has w pte_p)
      × (has (bit_or (bit_and w not_cow) pte_w) pte_u ≡ has w pte_u)
      × (pte_addr (bit_or (bit_and w not_cow) pte_w) ≡ pte_addr w)
unfolding has pte_addr
reused_bits w = (
  rw (has-bit_or (bit_and w not_cow) pte_w pte_w) (ground arith),
  has-bit_or (bit_and w not_cow) pte_w pte_p ∙ ground (arith, clear_cow-p w),
  has-bit_or (bit_and w not_cow) pte_w pte_u ∙ ground (arith, clear_cow-u w),
  addr-bit_or (bit_and w not_cow) pte_w
      ∙ bit_or-zero (pte_addr (bit_and w not_cow))
      ∙ clear_cow-addr w,
)

-- One reference moves from the page numbered `o` to the one numbered `n`.
moved_counts : (ℕ → ℕ) → ℕ → ℕ → ℕ → ℕ
moved_counts c o n = let less = update c o ((c o + 255) % 256) in update less n ((less n + 1) % 256)

moved :
    (c : ℕ → ℕ) (o n : ℕ)
    → 1 < c o
    → c o < 128
    → o ≢ n
    → (moved_counts c o n o + 1 ≡ c o)
      × (moved_counts c o n n ≡ (c n + 1) % 256)
      × ((k : ℕ) → k ≢ o → k ≢ n → moved_counts c o n k ≡ c k)
unfolding moved_counts
moved c o n more fits ne =
    let other : (o == n) ≡ false = ==_ne o n ne in
    let other' : (n == o) ≡ false = ==_ne n o (λ x. ne (sym x)) in
    (
      rw (other', ==_refl o) (omega (arith, more, fits)),
      rw (==_refl n, other) refl,
      λ k a b. rw (==_ne n k (λ x. b (sym x)), ==_ne o k (λ x. a (sym x))) refl,
    )

apart_numbers : (w v : ℕ) → v % 4096 ≡ 0 → v2p v ≢ pte_addr w → pte_addr w / 4096 ≢ v2p v / 4096
unfolding pte_addr
apart_numbers w v page ne e = ne (omega (arith, e, bit_and_page w, (v2p_page v page).0))

module _ (m : Machine) (pgdir : ℕ) (slot : Slot) (apart : Separate m slot) where
  reused-Isolated : sharers m (pte_addr (entry m slot)) ≡ 1 → Isolated m slot (reused m pgdir slot)
  reused-Isolated one =
      let w =
        written m.words slot.page slot.index (bit_or (bit_and (entry m slot) not_cow) pte_w) in
      let bits = reused_bits (entry m slot) in
      record {
        writable = rw w bits.0;
        present = λ h. rw w (bits.1 ∙ h);
        user = λ h. rw w (bits.2 ∙ h);
        same_view = λ j. rw (w, bits.3) (ground (arith, apart.table));
        others_keep = λ q j ne f. ground arith;
        last_keeps = λ _. (refl, refl, λ q j ne. ground arith);
        shared_counts = λ h. absurd (omega arith);
        own_page = λ h. absurd (omega arith);
      }

  copied-Isolated :
      (v : ℕ) (rest : List ℕ)
      → m.freelist ≡ v ∷ rest
      → 1 < sharers m (pte_addr (entry m slot))
      → sharers m (pte_addr (entry m slot)) < 128
      → Isolated m slot (copied m pgdir slot v rest)
  unfolding user_bits moved_counts
  copied-Isolated v rest e more fits =
      let first : head_of m.freelist ≡ v = ap head_of e in
      let h = (All-uncons _ e apart.free).0 in
      let w =
        written (update m.words (v2p v) (m.words (pte_addr (entry m slot)))) slot.page slot.index
          (user_bits (v2p v)) in
      let bits = user_bits_lem (v2p v) in
      let addr = addr-user_bits (v2p v) (addr-v2p v h.0) in
      record {
        writable = rw w bits.1;
        present = λ _. rw w bits.0;
        user = λ _. rw w bits.2;
        same_view = λ j. rw (w, addr) (ground arith);
        others_keep =
            λ q j ne f. let taken : q ≢ v2p v = λ x. f (x ∙ ap v2p (sym first)) in ground arith;
        last_keeps = λ one. absurd (omega (arith, one, more));
        shared_counts = λ _.
            let (old, new, others) =
              moved m.pg_refcount (pte_addr (entry m slot) / 4096) (v2p v / 4096) more fits
                (apart_numbers (entry m slot) v h.0 h.2) in
            rw first (e, rw (w, addr) refl, old, new, others);
        own_page = λ _. rw (w, addr) h.2;
      }

  Resumes-Isolated : (m' : Machine) → Resumes m pgdir slot m' → Isolated m slot m'
  unfolding Resumes
  Resumes-Isolated m' (inl (one, e)) = rw e (reused-Isolated one)
  Resumes-Isolated m' (inr (v, rest, e, more, fits, e')) =
      rw e' (copied-Isolated v rest e more fits)

-- A fault resumes only where the entry is a present user entry that is not writable.
resumes_legally :
    (m : Machine) (pgdir va : ℕ) (slot : Slot) (m' : Machine)
    → slot_of m pgdir va ≡ some slot
    → pagefault (some pgdir) va m ≡ ok resumed m'
    → (va < kernbase)
      × (has (entry m slot) pte_p ≡ true)
      × (has (entry m slot) pte_u ≡ true)
      × (has (entry m slot) pte_w ≡ false)
      × (cow_fault pgdir slot m ≡ ok resumed m')
unfolding pagefault user_fault
resumes_legally m pgdir va slot m' e h = ground (arith, walkpgdir-lookup m pgdir va)

-- Where a page fault resumes the process, the access was to a present user page below KERNBASE that was
-- not writable; afterwards the entry is writable, present and for users, and the process reads there
-- what it read before. A page with one reference stays, with all counts and free pages as before, and no
-- page but the page table changes. A page with more references is replaced by the first free page, which
-- is no longer free and has one reference more, the old page has one fewer, all other counts are as
-- before, and no page but the page table and the one taken changes. This holds where the page table, the
-- user page and the free pages are different pages.
pub pagefault-Isolated :
    (m : Machine) (pgdir va : ℕ) (slot : Slot) (m' : Machine)
    → slot_of m pgdir va ≡ some slot
    → Separate m slot
    → pagefault (some pgdir) va m ≡ ok resumed m'
    → (va < kernbase)
      × (has (entry m slot) pte_p ≡ true)
      × (has (entry m slot) pte_u ≡ true)
      × (has (entry m slot) pte_w ≡ false)
      × Isolated m slot m'
pagefault-Isolated m pgdir va slot m' e apart h =
    let legal = resumes_legally m pgdir va slot m' e h in
    (
      legal.0,
      legal.1,
      legal.2,
      legal.3,
      Resumes-Isolated m pgdir slot apart m' (resume_cases m pgdir slot m' legal.4),
    )
