-- ===== src/Vm/Cow/PageFault.antt =====
-- What `pagefault` does on each branch.
use tp2_ronaldo_joaopedro.Common.{
  ℕ, ◌+◌, ◌/◌, ◌%◌, ◌<◌, ◌≤◌, bit_and, bit_or, List, [], ◌∷◌, ◌≡◌, ◌≢◌, arith, ◌⊎◌, update,
}
use tp2_ronaldo_joaopedro.Machine.{Machine, ok, panic, v2p, wrong_refcount}
use tp2_ronaldo_joaopedro.Kalloc.FreeList.{kalloc-cons, kalloc-nil}
use tp2_ronaldo_joaopedro.Vm.Pte.{pte_p, pte_w, pte_u, not_cow, pte_addr}
use tp2_ronaldo_joaopedro.Vm.Walk.{Slot}
use tp2_ronaldo_joaopedro.Vm.Cow.{resumed, killed, cow_fault}

-- The entry at `slot`, and the count of the page that it leads to.
abbrev pub entry : Machine → Slot → ℕ
entry m slot = m.words slot.page slot.index

abbrev pub sharers : Machine → ℕ → ℕ
sharers m pa = m.pg_refcount (pa / 4096)

-- The branch of the last reference.
abbrev pub reused : Machine → ℕ → Slot → Machine
reused m pgdir slot = record m {
  words =
      update m.words slot.page
        (update (m.words slot.page) slot.index (bit_or (bit_and (entry m slot) not_cow) pte_w));
  cr3 = v2p pgdir;
}

pub cow_fault_last :
    (m : Machine) (pgdir : ℕ) (slot : Slot)
    → sharers m (pte_addr (entry m slot)) ≡ 1
    → cow_fault pgdir slot m ≡ ok resumed (reused m pgdir slot)
unfolding cow_fault
cow_fault_last m pgdir slot e = rw (e, cow_fault)

-- The branch that gives the process a page of its own, `v`.
abbrev pub copied : Machine → ℕ → Slot → ℕ → List ℕ → Machine
copied m pgdir slot v rest =
    let pa = pte_addr (entry m slot) in
    let words = update m.words (v2p v) (m.words pa) in
    let less = update m.pg_refcount (pa / 4096) ((sharers m pa + 255) % 256) in
    record m {
      freelist = rest;
      words = update words slot.page (
          update (words slot.page) slot.index (bit_or (bit_or (bit_or (v2p v) pte_p) pte_w) pte_u));
      pg_refcount = update less (v2p v / 4096) ((less (v2p v / 4096) + 1) % 256);
      cr3 = v2p pgdir;
    }

module _ (m : Machine) (pgdir : ℕ) (slot : Slot) where
  abbrev pub count : ℕ
  count = sharers m (pte_addr (entry m slot))

  pub cow_fault_copies :
      (v : ℕ) (rest : List ℕ)
      → m.freelist ≡ v ∷ rest
      → 1 < count
      → count < 128
      → cow_fault pgdir slot m ≡ ok resumed (copied m pgdir slot v rest)
  unfolding cow_fault
  cow_fault_copies v rest e h k = ground (arith, kalloc-cons m v rest e)

  pub cow_fault_full :
      m.freelist ≡ [] → 1 < count → count < 128 → cow_fault pgdir slot m ≡ ok killed m
  unfolding cow_fault
  cow_fault_full e h k = ground (arith, kalloc-nil m e)

  pub cow_fault_bad :
      count ≢ 1 → (count ≡ 0) ⊎ (128 ≤ count) → cow_fault pgdir slot m ≡ panic wrong_refcount
  unfolding cow_fault
  cow_fault_bad h k = ground arith
