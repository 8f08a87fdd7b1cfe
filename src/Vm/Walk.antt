-- ===== src/Vm/Walk.antt =====
-- `walkpgdir` and `mappages`.
pub mod Frame
pub mod Counts
pub mod Lookup
use tp2_ronaldo_joaopedro.Common.{
  ℕ, zero, suc, ◌+◌, ◌-◌, ◌/◌, ◌%◌, ◌^◌, bit_or, Bool, true, false, Option, none, some, ◌==◌,
  if◌then◌else◌,
}
use tp2_ronaldo_joaopedro.Machine.{
  Machine, Outcome, hang, M, pure, fail, ◌>>=◌, ◌>>◌, load, store, fill_page, remap, page_size, v2p,
  add32, sub32, pg_round_down,
}
use tp2_ronaldo_joaopedro.Kalloc.{kalloc}
use tp2_ronaldo_joaopedro.Vm.Pte.{pte_p, pte_w, pte_u, pte_cow, pte_addr, has, pdx, ptx}

-- `pte_t *`: the physical page of the table, and the entry's index in it.
pub record Slot : Type 0 where
  pub page : ℕ
  pub index : ℕ

abbrev pub load_pte : Slot → M ℕ
load_pte s = load s.page s.index

abbrev pub store_pte : Slot → ℕ → M (Unit {0})
store_pte s w = store s.page s.index w

-- The entry that a new page table gets in the directory.
abbrev pub pde_of : ℕ → ℕ
pde_of pgtab = bit_or (bit_or (bit_or (bit_or (v2p pgtab) pte_p) pte_w) pte_u) pte_cow

-- The branch of `walkpgdir` that finds no table.
unfoldable pub new_table : ℕ → ℕ → Bool → M (Option Slot)
new_table pgdir va false = pure none
new_table pgdir va true = do
  got ← kalloc
  elim got [
    | none ↦ pure none
    | some pgtab ↦ do
      fill_page (v2p pgtab) 0
      store (v2p pgdir) (pdx va) (pde_of pgtab)
      pure (some (record { page = v2p pgtab; index = ptx va }))
  ]

unfoldable pub walkpgdir : ℕ → ℕ → Bool → M (Option Slot)
walkpgdir pgdir va alloc = do
  pde ← load (v2p pgdir) (pdx va)
  if has pde pte_p
      then pure (some (record { page = pte_addr pde; index = ptx va }))
      else new_table pgdir va alloc

-- One round of `mappages`: the entry of `a`, which must not be in use.
unfoldable pub map_page : ℕ → ℕ → ℕ → ℕ → M Bool
map_page pgdir a pa perm = do
  got ← walkpgdir pgdir a true
  elim got [
    | none ↦ pure false
    | some slot ↦ do
      pte ← load_pte slot
      if has pte pte_p
          then fail remap
          else store_pte slot (bit_or (bit_or pa perm) pte_p) >> pure true
  ]

-- The loop of `mappages`, with fuel.
unfoldable pub map_from : ℕ → ℕ → ℕ → ℕ → ℕ → ℕ → M Bool
map_from zero pgdir a last pa perm = λ m. hang
map_from (suc fuel) pgdir a last pa perm = do
  mapped ← map_page pgdir a pa perm
  elim mapped [
    | false ↦ pure false
    | true ↦
        let rest = map_from fuel pgdir (add32 a page_size) last (add32 pa page_size) perm in
        if a == last then pure true else rest
  ]

-- `false` is -1. The loop makes as many rounds as there are pages from `a` up to `last`.
unfoldable pub mappages : ℕ → ℕ → ℕ → ℕ → ℕ → M Bool
unfolding map_from
mappages pgdir va size pa perm =
    let a = pg_round_down va in
    let last = pg_round_down (sub32 (add32 va size) 1) in
    map_from (suc (sub32 last a / page_size)) pgdir a last pa perm
