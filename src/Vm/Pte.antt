-- ===== src/Vm/Pte.antt =====
-- Page table entries and addresses, by the masks of mmu.h.
pub mod Flags
use tp2_ronaldo_joaopedro.Common.{ℕ, ◌+◌, ◌*◌, ◌/◌, ◌^◌, ◌%◌, bit_and, bit_or, Bool, not, ◌==◌}

abbrev pub pte_p : ℕ
pte_p = 0x001

abbrev pub pte_w : ℕ
pte_w = 0x002

abbrev pub pte_u : ℕ
pte_u = 0x004

abbrev pub pte_cow : ℕ
pte_cow = 0x400

-- `~flag` on 32 bits, for the flags that the code clears.
abbrev pub not_w : ℕ
not_w = 0xfffffffd

abbrev pub not_u : ℕ
not_u = 0xfffffffb

abbrev pub not_cow : ℕ
not_cow = 0xfffffbff

unfoldable pub pte_addr : ℕ → ℕ
pte_addr pte = bit_and pte 0xfffff000

unfoldable pub pte_flags : ℕ → ℕ
pte_flags pte = bit_and pte 0xfff

-- The C test `pte & flag`.
unfoldable pub has : ℕ → ℕ → Bool
has pte flag = not (bit_and pte flag == 0)

unfoldable pub pdx : ℕ → ℕ
pdx va = bit_and (va / 2 ^ 22) 0x3ff

unfoldable pub ptx : ℕ → ℕ
ptx va = bit_and (va / 2 ^ 12) 0x3ff

-- `PGADDR(d, 0, 0)`
unfoldable pub pg_addr : ℕ → ℕ
pg_addr d = d * 2 ^ 22 % 2 ^ 32
