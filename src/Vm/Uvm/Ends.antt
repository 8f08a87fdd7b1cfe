-- ===== src/Vm/Uvm/Ends.antt =====
-- The loops of `deallocuvm` and `freevm` in vm.c, and their fuel.
use tp2_ronaldo_joaopedro.Common.{
  ℕ, zero, suc, ◌+◌, ◌-◌, ◌/◌, ◌%◌, ◌^◌, ◌<◌, ◌≤◌, false, not, none, some, ◌≡◌, arith, ltb, leb,
  ◌||◌, ◌!=◌, ◌==◌,
}
use native.Mathlib.Nat.{le_refl}
use tp2_ronaldo_joaopedro.Machine.{
  Machine, kfree_bad, null_page, no_pgdir, phystop, page_size, kernbase, v2p, p2v, add32, sub32,
  pg_round_up,
}
use tp2_ronaldo_joaopedro.Machine.Triples.{
  Triple, bind, branch, returns, fails, Anything, Whatever, load_ends, fill_page_ends,
  dec_refcount_ends, get_refcount_ends,
}
use tp2_ronaldo_joaopedro.Bits.{bit_and_page, bit_and_ten}
use tp2_ronaldo_joaopedro.Kalloc.{junk, kfree, get_end, push_free}
use tp2_ronaldo_joaopedro.Vm.Pte.{pte_p, pte_addr, has, pdx, pg_addr}
use tp2_ronaldo_joaopedro.Vm.Walk.{Slot, load_pte, store_pte, walkpgdir}
use tp2_ronaldo_joaopedro.Vm.Walk.Lookup.{walkpgdir-lookup}
use tp2_ronaldo_joaopedro.Vm.Uvm.{
  drop_ref, unmap_slot, dealloc_page, dealloc_from, deallocuvm, free_tables, npdentries, freevm,
}

get_end_ends : Triple Anything get_end Whatever
get_end_ends = record { apply = λ m h. tt }

push_free_ends : (v : ℕ) → Triple Anything (push_free v) Whatever
push_free_ends v = record { apply = λ m h. tt }

pub kfree_ends : (v : ℕ) → Triple Anything (kfree v) Whatever
unfolding kfree
kfree_ends v = bind Whatever get_end_ends (λ kend.
    branch ((v % page_size != 0) || ltb v kend || leb phystop (v2p v)) (λ _. fails kfree_bad)
      (λ _. bind Whatever (fill_page_ends (v2p v) junk) (λ _. push_free_ends v)))

drop_ref_ends : (pa : ℕ) → Triple Anything (drop_ref pa) Whatever
unfolding drop_ref
drop_ref_ends pa = bind Whatever (dec_refcount_ends pa) (λ _.
    bind Whatever (get_refcount_ends pa)
      (λ count. branch (count == 0) (λ _. kfree_ends (p2v pa)) (λ _. returns tt (λ m _. tt))))

load_pte_ends : (slot : Slot) → Triple Anything (load_pte slot) Whatever
load_pte_ends slot = record { apply = λ m h. tt }

store_pte_ends : (slot : Slot) (w : ℕ) → Triple Anything (store_pte slot w) Whatever
store_pte_ends slot w = record { apply = λ m h. tt }

unmap_slot_ends : (slot : Slot) → Triple Anything (unmap_slot slot) Whatever
unfolding unmap_slot
unmap_slot_ends slot = bind Whatever (load_pte_ends slot) (λ pte.
    branch (not (has pte pte_p)) (λ _. returns tt (λ m h. tt))
      (λ _.
        branch (pte_addr pte == 0) (λ _. fails null_page)
          (λ _. bind Whatever (drop_ref_ends (pte_addr pte)) (λ _. store_pte_ends slot 0))))

-- The next address that the loop looks at is beyond the present one, and at most `KERNBASE`.
abbrev Advances : ℕ → ℕ → Machine → Type 0
Advances a a' m = (a ≤ a') × (a' + 4096 ≤ kernbase) × (a' % 4096 ≡ 0)

skip_table :
    (a : ℕ) (m : Machine)
    → a % 4096 ≡ 0
    → a < kernbase
    → Advances a (sub32 (pg_addr (pdx a + 1)) page_size) m
unfolding pg_addr pdx
skip_table a m h k = omega (arith, bit_and_ten (a / 2 ^ 22))

lookup_ends : (pgdir a : ℕ) → Triple Anything (walkpgdir pgdir a false) Whatever
lookup_ends pgdir a = record { apply = λ m _. rw (walkpgdir-lookup m pgdir a) tt }

dealloc_page_ends :
    (pgdir a : ℕ)
    → a % 4096 ≡ 0
    → a < kernbase
    → Triple Anything (dealloc_page pgdir a) (Advances a)
unfolding dealloc_page
dealloc_page_ends pgdir a h k = bind Whatever (lookup_ends pgdir a) (elim [
  | none ↦ returns _ (λ m _. skip_table a m h k)
  | some slot ↦ bind Whatever (unmap_slot_ends slot) (λ _. returns a (λ m _. stay m))
])
  where
    stay : (m : Machine) → Advances a a m
    stay m = (le_refl a, omega arith, h)

dealloc_from_ends :
    (fuel pgdir a oldsz : ℕ)
    → a % 4096 ≡ 0
    → a ≤ kernbase
    → oldsz ≤ kernbase
    → (oldsz + 4096 - a) / 4096 < fuel
    → Triple Anything (dealloc_from fuel pgdir a oldsz) Whatever
unfolding dealloc_from
dealloc_from_ends zero pgdir a oldsz h k l f = absurd (omega arith)
dealloc_from_ends (suc fuel) pgdir a oldsz h k l f =
    branch (ltb a oldsz)
      (λ e. bind (Advances a) (dealloc_page_ends pgdir a h (ground arith)) (λ a'. record {
        apply = λ m step.
            (dealloc_from_ends fuel pgdir (add32 a' page_size) oldsz (omega arith) (omega arith) l
                (ground arith)).apply
              m tt;
      }))
      (λ _. returns tt (λ m _. tt))

le_of_leb : (a b : ℕ) → leb a b ≡ false → b < a
le_of_leb a b h = ground arith

-- `deallocuvm` ends, where it is called: on sizes up to KERNBASE.
pub deallocuvm_ends :
    (pgdir oldsz newsz : ℕ)
    → oldsz ≤ kernbase
    → Triple Anything (deallocuvm pgdir oldsz newsz) Whatever
unfolding deallocuvm pg_round_up
deallocuvm_ends pgdir oldsz newsz h =
    let top : ℕ = sub32 (add32 newsz page_size) 1 in
    branch (leb oldsz newsz) (λ _. returns oldsz (λ m _. tt))
      (λ e.
        bind Whatever
          (dealloc_from_ends (suc ((oldsz + page_size - pg_round_up newsz) / page_size)) pgdir
            (pg_round_up newsz) oldsz (omega (arith, bit_and_page top))
            (omega (arith, bit_and_page top, le_of_leb oldsz newsz e)) h (omega arith))
          (λ _. returns newsz (λ m _. tt)))

free_tables_ends : (n pgdir i : ℕ) → Triple Anything (free_tables n pgdir i) Whatever
unfolding free_tables
free_tables_ends zero pgdir i = returns tt (λ m _. tt)
free_tables_ends (suc n) pgdir i = bind Whatever (load_ends (v2p pgdir) i) (λ pde.
    bind Whatever
      (branch (has pde pte_p) (λ _. kfree_ends (p2v (pte_addr pde))) (λ _. returns tt (λ m _. tt)))
      (λ _. free_tables_ends n pgdir (i + 1)))

pub freevm_ends : (pgdir : ℕ) → Triple Anything (freevm pgdir) Whatever
unfolding freevm
freevm_ends pgdir =
    branch (pgdir == 0) (λ _. fails no_pgdir)
      (λ _.
        bind Whatever (deallocuvm_ends pgdir kernbase 0 (omega arith))
          (λ _. bind Whatever (free_tables_ends npdentries pgdir 0) (λ _. kfree_ends pgdir)))
