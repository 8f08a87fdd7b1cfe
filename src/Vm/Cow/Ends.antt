-- ===== src/Vm/Cow/Ends.antt =====
-- The loops of the two copies of an address space in vm.c, and their fuel.
use tp2_ronaldo_joaopedro.Common.{
  ℕ, ◌≤◌, bit_and, bit_or, true, false, not, none, some, refl, arith,
}
use tp2_ronaldo_joaopedro.Machine.{Machine, M, kernbase, page_size, v2p, inc_refcount, lcr3}
use tp2_ronaldo_joaopedro.Machine.Triples.{
  Triple, bind, branch, returns, weaken, Anything, Whatever,
}
use tp2_ronaldo_joaopedro.Vm.Pte.{pte_cow, not_w, pte_addr, pte_flags}
use tp2_ronaldo_joaopedro.Vm.Walk.{Slot, load_pte, store_pte, mappages}
use tp2_ronaldo_joaopedro.Vm.Walk.Counts.{Counts, mappages-Counts}
use tp2_ronaldo_joaopedro.Vm.Uvm.{setupkvm}
use tp2_ronaldo_joaopedro.Vm.Uvm.Ends.{freevm_ends}
use tp2_ronaldo_joaopedro.Vm.Cow.{share_page, copy_rounds, copyuvm, copyuvmcow}
use tp2_ronaldo_joaopedro.Vm.Cow.Leak.{
  Kept, copy_from-keeps, present_slot-keeps, setupkvm-Kept, copyuvm-Kept,
}

-- What ends from every choice of counts ends.
from_any :
    {A : Type 0} {c : M A} (Q : (ℕ → ℕ) → A → Machine → Type 0)
    → ((k : ℕ → ℕ) → Triple (Counts k) c (Q k))
    → Triple Anything c Whatever
from_any Q h = record {
  apply = λ m p. (weaken (Q m.pg_refcount) (λ a s q. tt) (h m.pg_refcount)).apply m refl;
}

pub copyuvm_ends : (pgdir sz : ℕ) → sz ≤ kernbase → Triple Anything (copyuvm pgdir sz) Whatever
copyuvm_ends pgdir sz k = from_any Kept (λ c. copyuvm-Kept c pgdir sz k)

setupkvm_ends : Triple Anything setupkvm Whatever
setupkvm_ends = from_any Kept setupkvm-Kept

lcr3_ends : (pa : ℕ) → Triple Anything (lcr3 pa) Whatever
lcr3_ends pa = record { apply = λ m h. tt }

load_pte_ends : (slot : Slot) → Triple Anything (load_pte slot) Whatever
load_pte_ends slot = record { apply = λ m h. tt }

store_pte_ends : (slot : Slot) (w : ℕ) → Triple Anything (store_pte slot w) Whatever
store_pte_ends slot w = record { apply = λ m h. tt }

inc_refcount_ends : (pa : ℕ) → Triple Anything (inc_refcount pa) Whatever
inc_refcount_ends pa = record { apply = λ m h. tt }

mappages_ends : (d va size pa perm : ℕ) → Triple Anything (mappages d va size pa perm) Whatever
mappages_ends d va size pa perm =
    from_any (λ k _ m. Counts k m) (λ k. mappages-Counts k d va size pa perm)

share_page_ends : (pgdir d i : ℕ) → Triple Anything (share_page pgdir d i) Whatever
unfolding share_page
share_page_ends pgdir d i = bind Whatever (present_slot-keeps Anything pgdir i) (λ slot.
    bind Whatever (load_pte_ends slot) (λ pte.
      bind Whatever (store_pte_ends slot (bit_and pte not_w)) (λ _.
        bind Whatever
          (mappages_ends d i page_size (pte_addr (bit_and pte not_w))
            (pte_flags (bit_and pte not_w)))
          (λ mapped.
            branch (not mapped) (λ _. returns false (λ m h. tt))
              (λ _. bind Whatever (load_pte_ends slot) (λ pte'.
                bind Whatever (store_pte_ends slot (bit_or pte' pte_cow)) (λ _.
                  bind Whatever (inc_refcount_ends (pte_addr (bit_and pte not_w)))
                    (λ _. returns true (λ m h. tt)))))))))

pub copyuvmcow_ends :
    (pgdir sz : ℕ) → sz ≤ kernbase → Triple Anything (copyuvmcow pgdir sz) Whatever
unfolding copyuvmcow copy_rounds
copyuvmcow_ends pgdir sz k = bind Whatever setupkvm_ends (elim [
  | none ↦ returns none (λ m h. tt)
  | some d ↦
      bind Whatever
        (copy_from-keeps Anything (share_page pgdir d) (share_page_ends pgdir d) (copy_rounds sz) 0
          sz k (omega arith) (omega arith))
        (λ copied.
          branch copied
            (λ _. bind Whatever (lcr3_ends (v2p pgdir)) (λ _. returns (some d) (λ m h. tt)))
            (λ _.
              bind Whatever (freevm_ends d)
                (λ _. bind Whatever (lcr3_ends (v2p pgdir)) (λ _. returns none (λ m h. tt)))))
])
