-- ===== src/Vm/Cow.antt =====
-- Copying an address space in vm.c: `copyuvm`, `copyuvmcow` and `pagefault`.
pub mod PageFault
pub mod Isolation
pub mod Leak
pub mod Share
pub mod Ends
use tp2_ronaldo_joaopedro.Common.{
  ℕ, zero, suc, ◌+◌, ◌-◌, ◌/◌, ◌%◌, ◌^◌, bit_and, bit_or, Bool, true, false, not, ◌||◌, Option,
  none, some, ◌==◌, ltb, leb, ◌&&◌, if◌then◌else◌,
}
use tp2_ronaldo_joaopedro.Machine.{
  Machine, Outcome, ok, hang, M, pure, fail, ◌>>=◌, ◌>>◌, load, store, copy_page, inc_refcount,
  dec_refcount, get_refcount, lcr3, page_size, kernbase, v2p, p2v, add32, sub32, pte_should_exist,
  page_not_present, no_process, fault_writable, wrong_refcount,
}
use tp2_ronaldo_joaopedro.Kalloc.{kalloc}
use tp2_ronaldo_joaopedro.Vm.Pte.{
  pte_p, pte_w, pte_u, pte_cow, not_w, not_cow, pte_addr, pte_flags, has,
}
use tp2_ronaldo_joaopedro.Vm.Walk.{Slot, load_pte, store_pte, walkpgdir, mappages}
use tp2_ronaldo_joaopedro.Vm.Uvm.{setupkvm, freevm}

-- The entry of a user page that is copied; both copies insist that it is there.
unfoldable pub present_slot : ℕ → ℕ → M Slot
present_slot pgdir i = do
  got ← walkpgdir pgdir i false
  elim got [
    | none ↦ fail pte_should_exist
    | some slot ↦ do pte ← load_pte slot; if has pte pte_p then pure slot else fail page_not_present
  ]

-- One page of `copyuvm`; `false` is the jump to `bad`.
unfoldable pub deep_copy_page : ℕ → ℕ → ℕ → M Bool
deep_copy_page pgdir d i = do
  slot ← present_slot pgdir i
  pte ← load_pte slot
  got ← kalloc
  elim got [
    | none ↦ pure false
    | some mem ↦ do
      copy_page (v2p mem) (pte_addr pte)
      mappages d i page_size (v2p mem) (pte_flags pte)
  ]

-- One page of `copyuvmcow`.
unfoldable pub share_page : ℕ → ℕ → ℕ → M Bool
share_page pgdir d i = do
  slot ← present_slot pgdir i
  pte ← load_pte slot
  let read_only = bit_and pte not_w
  store_pte slot read_only
  mapped ← mappages d i page_size (pte_addr read_only) (pte_flags read_only)
  if not mapped then pure false else do
    pte' ← load_pte slot
    store_pte slot (bit_or pte' pte_cow)
    inc_refcount (pte_addr read_only)
    pure true

-- The loops, with fuel; `copy` is the body.
unfoldable pub copy_from : (ℕ → M Bool) → ℕ → ℕ → ℕ → M Bool
copy_from copy zero i sz = λ m. hang
copy_from copy (suc fuel) i sz =
    let rest : Bool → M Bool = elim [
      | false ↦ pure false
      | true ↦ copy_from copy fuel (add32 i page_size) sz
    ] in
    if ltb i sz then copy i >>= rest else pure true

unfoldable pub copy_rounds : ℕ → ℕ
copy_rounds sz = suc ((sz + page_size) / page_size)

unfoldable pub copyuvm : ℕ → ℕ → M (Option ℕ)
copyuvm pgdir sz = do
  got ← setupkvm
  elim got [
    | none ↦ pure none
    | some d ↦ do
      copied ← copy_from (deep_copy_page pgdir d) (copy_rounds sz) 0 sz
      if copied then pure (some d) else freevm d >> pure none
  ]

-- Both ways out write the page table register, which flushes the parent's cached entries.
unfoldable pub copyuvmcow : ℕ → ℕ → M (Option ℕ)
copyuvmcow pgdir sz = do
  got ← setupkvm
  elim got [
    | none ↦ pure none
    | some d ↦ do
      copied ← copy_from (share_page pgdir d) (copy_rounds sz) 0 sz
      if copied
          then lcr3 (v2p pgdir) >> pure (some d)
          else freevm d >> (lcr3 (v2p pgdir) >> pure none)
  ]

-- What a page fault does to the running process: `killed` sets its flag.
pub data Fault : Type 0 where
  resumed killed : Fault

-- The last branch of `pagefault`: the entry is present, for users, and not writable. The counts
-- are `char`, so a pattern from 128 up is negative and takes the branch that panics.
unfoldable pub cow_fault : ℕ → Slot → M Fault
cow_fault pgdir slot = do
  pte ← load_pte slot
  count ← get_refcount (pte_addr pte)
  if count == 1
      then (do store_pte slot (bit_or (bit_and pte not_cow) pte_w); lcr3 (v2p pgdir); pure resumed)
      else if ltb 1 count && ltb count 128
      then (do
        got ← kalloc
        elim got [
          | none ↦ pure killed
          | some mem ↦ do
            copy_page (v2p mem) (pte_addr pte)
            dec_refcount (pte_addr pte)
            inc_refcount (v2p mem)
            store_pte slot (bit_or (bit_or (bit_or (v2p mem) pte_p) pte_w) pte_u)
            lcr3 (v2p pgdir)
            pure resumed
        ])
      else fail wrong_refcount

-- The entry is legal for a user access, or the process is killed.
unfoldable pub user_fault : ℕ → ℕ → M Fault
user_fault pgdir va = do
  got ← walkpgdir pgdir va false
  elim got [
    | none ↦ pure killed
    | some slot ↦ do
      pte ← load_pte slot
      if not (has pte pte_p) || not (has pte pte_u)
          then pure killed
          else if has pte pte_w
          then fail fault_writable
          else cow_fault pgdir slot
  ]

-- `va` is what `rcr2()` returns, and the option is the running process's page directory.
unfoldable pub pagefault : Option ℕ → ℕ → M Fault
pagefault none va = fail no_process
pagefault (some pgdir) va = if leb kernbase va then pure killed else user_fault pgdir va
