-- ===== src/Vm/Pte/Flags.antt =====
-- How the masks act on an entry: what clearing or setting a flag changes, and what it keeps.
use tp2_ronaldo_joaopedro.Common.{
  ℕ, ◌%◌, ◌^◌, ◌<◌, bit_and, bit_or, Bool, true, false, not, ◌||◌, ◌≡◌, refl, ap, ◌∙◌, ◌==◌, arith,
}
use tp2_ronaldo_joaopedro.Bits.{
  bit_and_assoc, bit_and-bit_or, bit_or-zero, bit_and-zero, zero-bit_or, zero-bit_and, le-bit_or,
  bit_and_page,
}
use tp2_ronaldo_joaopedro.Vm.Pte.{
  pte_p, pte_w, pte_u, pte_cow, not_w, not_cow, pte_addr, pte_flags, has,
}

any_bit : (a b : ℕ) → not (bit_or a b == 0) ≡ (not (a == 0) || not (b == 0))
any_bit a b = ground (arith, le-bit_or a b, zero-bit_or b)

-- A flag is set in a union when it is set in a part.
pub has-bit_or : (a b flag : ℕ) → has (bit_or a b) flag ≡ (has a flag || has b flag)
unfolding has
has-bit_or a b flag = rw (bit_and-bit_or a b flag) (any_bit (bit_and a flag) (bit_and b flag))

-- Under a mask, a flag is tested through the mask.
pub has-bit_and : (w mask flag : ℕ) → has (bit_and w mask) flag ≡ has w (bit_and mask flag)
unfolding has
has-bit_and w mask flag = ap (λ t. not (t == 0)) (bit_and_assoc w mask flag)

pub has-zero : (w : ℕ) → has w 0 ≡ false
unfolding has
has-zero w = rw (bit_and-zero w)

pub zero-has : (flag : ℕ) → has 0 flag ≡ false
unfolding has
zero-has flag = rw (zero-bit_and flag)

-- Clearing the write bit clears it, and keeps the other flags and the address.
module _ (w : ℕ) where
  pub clear_w-w : has (bit_and w not_w) pte_w ≡ false
  clear_w-w = has-bit_and w not_w pte_w ∙ has-zero w

  pub clear_w-p : has (bit_and w not_w) pte_p ≡ has w pte_p
  clear_w-p = has-bit_and w not_w pte_p

  pub clear_w-u : has (bit_and w not_w) pte_u ≡ has w pte_u
  clear_w-u = has-bit_and w not_w pte_u

  pub clear_w-addr : pte_addr (bit_and w not_w) ≡ pte_addr w
  unfolding pte_addr
  clear_w-addr = bit_and_assoc w not_w 0xfffff000

  pub clear_cow-addr : pte_addr (bit_and w not_cow) ≡ pte_addr w
  unfolding pte_addr
  clear_cow-addr = bit_and_assoc w not_cow 0xfffff000

  pub clear_cow-p : has (bit_and w not_cow) pte_p ≡ has w pte_p
  clear_cow-p = has-bit_and w not_cow pte_p

  pub clear_cow-u : has (bit_and w not_cow) pte_u ≡ has w pte_u
  clear_cow-u = has-bit_and w not_cow pte_u

  pub clear_cow-cow : has (bit_and w not_cow) pte_cow ≡ false
  clear_cow-cow = has-bit_and w not_cow pte_cow ∙ has-zero w

  -- The address of an entry has no flags, and the flags have no address.
  pub addr-addr : pte_addr (pte_addr w) ≡ pte_addr w
  unfolding pte_addr
  addr-addr = bit_and_assoc w 0xfffff000 0xfffff000

  pub addr-flags : pte_addr (pte_flags w) ≡ 0
  unfolding pte_addr pte_flags
  addr-flags = bit_and_assoc w 0xfff 0xfffff000 ∙ bit_and-zero w

  pub flags-addr : pte_flags (pte_addr w) ≡ 0
  unfolding pte_addr pte_flags
  flags-addr = bit_and_assoc w 0xfffff000 0xfff ∙ bit_and-zero w

  pub has-addr : (flag : ℕ) → bit_and 0xfffff000 flag ≡ 0 → has (pte_addr w) flag ≡ false
  unfolding pte_addr
  has-addr flag e = has-bit_and w 0xfffff000 flag ∙ ap (has w) e ∙ has-zero w

  pub has-flags : (flag : ℕ) → bit_and 0xfff flag ≡ flag → has (pte_flags w) flag ≡ has w flag
  unfolding pte_flags
  has-flags flag e = has-bit_and w 0xfff flag ∙ ap (has w) e

-- The address of a union is the union of the addresses.
pub addr-bit_or : (a b : ℕ) → pte_addr (bit_or a b) ≡ bit_or (pte_addr a) (pte_addr b)
unfolding pte_addr
addr-bit_or a b = bit_and-bit_or a b 0xfffff000

-- `pa | perm | PTE_P` gives back `pa` where `pa` is an address and `perm` is flags only.
pub addr-entry :
    (pa perm : ℕ)
    → pte_addr pa ≡ pa
    → pte_addr perm ≡ 0
    → pte_addr (bit_or (bit_or pa perm) pte_p) ≡ pa
unfolding pte_addr
addr-entry pa perm h k =
    rw (addr-bit_or (bit_or pa perm) pte_p, addr-bit_or pa perm, h, k, bit_or-zero pa)
      (bit_or-zero pa)

pub has-entry_p : (pa perm : ℕ) → has (bit_or (bit_or pa perm) pte_p) pte_p ≡ true
unfolding has
has-entry_p pa perm =
    rw (has-bit_or (bit_or pa perm) pte_p pte_p) (or_true (has (bit_or pa perm) pte_p))
  where
    or_true : (b : Bool) → (b || true) ≡ true
    or_true true = refl
    or_true false = refl

-- An aligned 32-bit address is its own address part.
pub addr_of_page : (a : ℕ) → a % 4096 ≡ 0 → a < 2 ^ 32 → pte_addr a ≡ a
unfolding pte_addr
addr_of_page a h k = omega (arith, bit_and_page a)

pub page_of_addr : (w : ℕ) → (pte_addr w % 4096 ≡ 0) × (pte_addr w < 2 ^ 32)
unfolding pte_addr
page_of_addr w = omega (arith, bit_and_page w)

-- The entry of a fresh page table: it is present, and leads to the table.
module _ (t : ℕ) where
  abbrev pde_word : ℕ
  pde_word = bit_or (bit_or (bit_or (bit_or t pte_p) pte_w) pte_u) pte_cow

  pub addr-pde : pte_addr t ≡ t → pte_addr pde_word ≡ t
  unfolding pte_addr
  addr-pde h =
      rw
        (
          addr-bit_or (bit_or (bit_or (bit_or t pte_p) pte_w) pte_u) pte_cow,
          addr-bit_or (bit_or (bit_or t pte_p) pte_w) pte_u,
          addr-bit_or (bit_or t pte_p) pte_w,
          addr-bit_or t pte_p,
          h,
          bit_or-zero t,
          bit_or-zero t,
          bit_or-zero t,
        )
        (bit_or-zero t)

  pub has-pde_p : has pde_word pte_p ≡ true
  unfolding has
  has-pde_p =
      rw
        (
          has-bit_or (bit_or (bit_or (bit_or t pte_p) pte_w) pte_u) pte_cow pte_p,
          has-bit_or (bit_or (bit_or t pte_p) pte_w) pte_u pte_p,
          has-bit_or (bit_or t pte_p) pte_w pte_p,
          has-bit_or t pte_p pte_p,
        )
        (ground arith)
