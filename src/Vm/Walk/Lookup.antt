-- ===== src/Vm/Walk/Lookup.antt =====
-- `walkpgdir` in vm.c with no allocation, as a lookup.
use tp2_ronaldo_joaopedro.Common.{
  false, Option, none, some, ◌≡◌, if◌then◌else◌, ℕ, inl, inr, Bool-cases,
}
use tp2_ronaldo_joaopedro.Machine.{Machine, ok, v2p}
use tp2_ronaldo_joaopedro.Vm.Pte.{pte_p, pte_addr, has, pdx, ptx}
use tp2_ronaldo_joaopedro.Vm.Walk.{Slot, new_table, walkpgdir}

-- The entry of `va`, where its page table is there.
abbrev pub slot_of : Machine → ℕ → ℕ → Option Slot
slot_of m pgdir va =
    let pde = m.words (v2p pgdir) (pdx va) in
    if has pde pte_p then some (record { page = pte_addr pde; index = ptx va }) else none

pub walkpgdir-lookup :
    (m : Machine) (pgdir va : ℕ) → walkpgdir pgdir va false m ≡ ok (slot_of m pgdir va) m
unfolding walkpgdir new_table
walkpgdir-lookup m pgdir va = elim (Bool-cases (has (m.words (v2p pgdir) (pdx va)) pte_p)) [
  | inl e ↦ rw e
  | inr e ↦ rw e
]
