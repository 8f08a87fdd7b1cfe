-- ===== src/Vm/Uvm.antt =====
-- User memory in vm.c: `deallocuvm`, `freevm`, `setupkvm`, `allocuvm`, `inituvm`, `clearpteu` and
-- `uva2ka`. A loop over addresses takes fuel for the pages in its range.
pub mod Ends
use tp2_ronaldo_joaopedro.Common.{
  ℕ, zero, suc, ◌+◌, ◌-◌, ◌*◌, ◌/◌, ◌%◌, ◌^◌, bit_and, bit_or, Bool, true, false, not, ◌||◌, Option,
  none, some, List, update, [], ◌∷◌, update, ◌==◌, ltb, leb, if◌then◌else◌,
}
use tp2_ronaldo_joaopedro.Machine.{
  Machine, Outcome, ok, hang, M, pure, fail, ◌>>=◌, ◌>>◌, Kmap, load, store, fill_page, copy_page,
  inc_refcount, dec_refcount, get_refcount, page_size, kernbase, phystop, devspace, v2p, p2v, add32,
  sub32, pg_round_up, null_page, no_pgdir, phystop_too_high, more_than_a_page, pte_should_exist,
}
use tp2_ronaldo_joaopedro.Kalloc.{kalloc, kfree}
use tp2_ronaldo_joaopedro.Vm.Pte.{pte_p, pte_w, pte_u, not_u, pte_addr, has, pdx, pg_addr}
use tp2_ronaldo_joaopedro.Vm.Walk.{Slot, load_pte, store_pte, walkpgdir, mappages}

-- Drop one reference to the page of an entry, and free the page with the last one.
unfoldable pub drop_ref : ℕ → M (Unit {0})
drop_ref pa = do
  dec_refcount pa
  count ← get_refcount pa
  if count == 0 then kfree (p2v pa) else pure tt

unfoldable pub unmap_slot : Slot → M (Unit {0})
unmap_slot slot = do
  pte ← load_pte slot
  if not (has pte pte_p)
      then pure tt
      else if pte_addr pte == 0
      then fail null_page
      else drop_ref (pte_addr pte) >> store_pte slot 0

-- The body of the loop of `deallocuvm`; it returns `a` as the body leaves it.
unfoldable pub dealloc_page : ℕ → ℕ → M ℕ
dealloc_page pgdir a = do
  got ← walkpgdir pgdir a false
  elim got [
    | none ↦ pure (sub32 (pg_addr (pdx a + 1)) page_size)
    | some slot ↦ unmap_slot slot >> pure a
  ]

unfoldable pub dealloc_from : ℕ → ℕ → ℕ → ℕ → M (Unit {0})
dealloc_from zero pgdir a oldsz = λ m. hang
dealloc_from (suc fuel) pgdir a oldsz =
    let rest = λ (a' : ℕ). dealloc_from fuel pgdir (add32 a' page_size) oldsz in
    if ltb a oldsz then dealloc_page pgdir a >>= rest else pure tt

unfoldable pub deallocuvm : ℕ → ℕ → ℕ → M ℕ
unfolding dealloc_from
deallocuvm pgdir oldsz newsz =
    let a = pg_round_up newsz in
    if leb oldsz newsz
    then pure oldsz
    else dealloc_from (suc ((oldsz + page_size - a) / page_size)) pgdir a oldsz >> pure newsz

-- The second loop of `freevm`, over the `n` directory entries from `i` on.
unfoldable pub free_tables : ℕ → ℕ → ℕ → M (Unit {0})
free_tables zero pgdir i = pure tt
free_tables (suc n) pgdir i = do
  pde ← load (v2p pgdir) i
  if has pde pte_p then kfree (p2v (pte_addr pde)) else pure tt
  free_tables n pgdir (i + 1)

abbrev pub npdentries : ℕ
npdentries = 1024

unfoldable pub freevm : ℕ → M (Unit {0})
unfolding free_tables
freevm pgdir =
    if pgdir == 0
    then fail no_pgdir
    else deallocuvm pgdir kernbase 0 >>= λ _. free_tables npdentries pgdir 0 >> kfree pgdir

-- The loop of `setupkvm` over the table of kernel mappings.
unfoldable pub map_kernel : ℕ → List Kmap → M (Option ℕ)
map_kernel pgdir [] = pure (some pgdir)
map_kernel pgdir (k ∷ rest) = do
  mapped ← mappages pgdir k.virt (sub32 k.phys_end k.phys_start) k.phys_start k.perm
  elim mapped [ true ↦ map_kernel pgdir rest | false ↦ freevm pgdir >> pure none ]

unfoldable pub setupkvm : M (Option ℕ)
unfolding map_kernel
setupkvm = do
  got ← kalloc
  elim got [
    | none ↦ pure none
    | some pgdir ↦ do
      fill_page (v2p pgdir) 0
      if ltb devspace (p2v phystop) then fail phystop_too_high else λ m. map_kernel pgdir m.kmap m
  ]

-- One round of `allocuvm`; `false` when memory runs out. The rollback is the caller's, but the
-- page that could not be mapped is still to be freed after it.
pub data Grown : Type 0 where
  grown no_page : Grown
  no_table : ℕ → Grown

unfoldable pub alloc_page : ℕ → ℕ → M Grown
alloc_page pgdir a = do
  got ← kalloc
  elim got [
    | none ↦ pure no_page
    | some mem ↦ do
      fill_page (v2p mem) 0
      mapped ← mappages pgdir a page_size (v2p mem) (bit_or pte_w pte_u)
      if mapped then inc_refcount (v2p mem) >> pure grown else pure (no_table mem)
  ]

-- The loop of `allocuvm`. The result 0 is an error.
unfoldable pub alloc_from : ℕ → ℕ → ℕ → ℕ → ℕ → M ℕ
alloc_from zero pgdir a oldsz newsz = λ m. hang
alloc_from (suc fuel) pgdir a oldsz newsz =
    let rest : Grown → M ℕ = elim [
      | grown ↦ alloc_from fuel pgdir (add32 a page_size) oldsz newsz
      | no_page ↦ deallocuvm pgdir newsz oldsz >>= λ _. pure 0
      | no_table mem ↦ deallocuvm pgdir newsz oldsz >>= λ _. kfree mem >> pure 0
    ] in
    if ltb a newsz then alloc_page pgdir a >>= rest else pure newsz

unfoldable pub allocuvm : ℕ → ℕ → ℕ → M ℕ
unfolding alloc_from
allocuvm pgdir oldsz newsz =
    let a = pg_round_up oldsz in
    if leb kernbase newsz
    then pure 0
    else if ltb newsz oldsz
    then pure oldsz
    else alloc_from (suc ((newsz + page_size - a) / page_size)) pgdir a oldsz newsz

-- A word of `memmove(mem, init, sz)`: the bytes below `sz` come from `init`.
unfoldable pub merge_word : (ℕ → ℕ) → ℕ → (ℕ → ℕ) → ℕ → ℕ
merge_word init sz old i =
    if leb ((i + 1) * 4) sz
    then init i
    else if leb sz (i * 4)
    then old i
    else init i % 256 ^ (sz - i * 4) + old i / 256 ^ (sz - i * 4) * 256 ^ (sz - i * 4)

abbrev write_init : ℕ → (ℕ → ℕ) → ℕ → M (Unit {0})
write_init page init sz m =
    ok tt (record m { words = update m.words page (merge_word init sz (m.words page)) })

-- The source does not test what `kalloc` returns; a null page faults in the kernel.
unfoldable pub inituvm : ℕ → (ℕ → ℕ) → ℕ → M (Unit {0})
inituvm pgdir init sz = if leb page_size sz then fail more_than_a_page else do
  got ← kalloc
  elim got [
    | none ↦ fail null_page
    | some mem ↦ do
      fill_page (v2p mem) 0
      mapped ← mappages pgdir 0 page_size (v2p mem) (bit_or pte_w pte_u)
      inc_refcount (v2p mem)
      write_init (v2p mem) init sz
  ]

unfoldable pub clearpteu : ℕ → ℕ → M (Unit {0})
clearpteu pgdir uva = do
  got ← walkpgdir pgdir uva false
  elim got [
    | none ↦ fail pte_should_exist
    | some slot ↦ load_pte slot >>= λ pte. store_pte slot (bit_and pte not_u)
  ]

-- The kernel address of the page of a user address. Where the address has no page table the
-- source reads through a null pointer.
unfoldable pub uva2ka : ℕ → ℕ → M (Option ℕ)
uva2ka pgdir uva = do
  got ← walkpgdir pgdir uva false
  elim got [
    | none ↦ fail null_page
    | some slot ↦ do
      pte ← load_pte slot
      if not (has pte pte_p)
          then pure none
          else if not (has pte pte_u)
          then pure none
          else pure (some (p2v (pte_addr pte)))
  ]
