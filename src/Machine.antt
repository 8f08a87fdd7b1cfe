-- ===== src/Machine.antt =====
-- The machine that kalloc.c and vm.c run on: physical memory page by page, the free list, the
-- reference counts of pages and the page table register. The constants are those of memlayout.h
-- and mmu.h. A kernel operation is a step on this state that returns, or panics.
pub mod Triples
use tp2_ronaldo_joaopedro.Common.{
  ℕ, ◌+◌, ◌-◌, ◌*◌, ◌/◌, ◌%◌, ◌^◌, bit_and, Bool, Option, List, update, if◌then◌else◌,
}

-- `uint` addition and subtraction.
abbrev pub add32 : ℕ → ℕ → ℕ
add32 a b = (a + b) % 2 ^ 32

abbrev pub sub32 : ℕ → ℕ → ℕ
sub32 a b = (a + 2 ^ 32 - b) % 2 ^ 32

abbrev pub page_size : ℕ
page_size = 4096

abbrev pub kernbase : ℕ
kernbase = 0x80000000

abbrev pub phystop : ℕ
phystop = 0xE000000

abbrev pub devspace : ℕ
devspace = 0xFE000000

-- `V2P` and `P2V`
abbrev pub v2p : ℕ → ℕ
v2p a = sub32 a kernbase

abbrev pub p2v : ℕ → ℕ
p2v a = add32 a kernbase

-- `~(PGSIZE-1)`
abbrev pub page_mask : ℕ
page_mask = 0xfffff000

unfoldable pub pg_round_up : ℕ → ℕ
pg_round_up sz = bit_and (sub32 (add32 sz page_size) 1) page_mask

unfoldable pub pg_round_down : ℕ → ℕ
pg_round_down a = bit_and a page_mask

-- A row of the table of kernel mappings.
pub record Kmap : Type 0 where
  pub virt : ℕ
  pub phys_start : ℕ
  pub phys_end : ℕ
  pub perm : ℕ

-- `words` gives a page's contents by the page's physical address and the index of a 32-bit word.
-- The free list holds kernel virtual addresses; `pg_refcount` is indexed by page number and holds
-- 8-bit patterns, since the source declares it `char`.
pub record Machine : Type 0 where
  pub words : ℕ → ℕ → ℕ
  pub freelist : List ℕ
  pub use_lock : Bool
  pub pg_refcount : ℕ → ℕ
  pub cr3 : ℕ
  pub kernel_end : ℕ
  pub kmap : List Kmap

pub data Panic : Type 0 where
  kfree_bad remap phystop_too_high no_pgdir null_page : Panic
  pte_should_exist page_not_present more_than_a_page : Panic
  no_process fault_writable wrong_refcount : Panic
  filedup_bad : Panic

-- `hang` is a loop that has used up its fuel.
pub data Outcome {ℓ} (A : Type ℓ) : Type ℓ where
  ok : A → Machine → Outcome A
  panic : Panic → Outcome A
  hang : Outcome A

abbrev pub M {ℓ} : Type ℓ → Type ℓ
M A = Machine → Outcome A

abbrev pub pure {ℓ} : {A : Type ℓ} → A → M A
pure a m = ok a m

abbrev pub fail {ℓ} : {A : Type ℓ} → Panic → M A
fail p m = panic p

infixl 5 ◌>>=◌ ◌>>◌
abbrev pub ◌>>=◌ {ℓ κ} : {A : Type ℓ} {B : Type κ} → M A → (A → M B) → M B
◌>>=◌ c f m = elim (c m) [ ok a m' ↦ f a m' | panic p ↦ panic p | hang ↦ hang ]

abbrev pub ◌>>◌ {ℓ} : {B : Type ℓ} → M (Unit {0}) → M B → M B
c >> k = c >>= λ _. k

-- One word of memory.
abbrev pub load : ℕ → ℕ → M ℕ
load page i m = ok (m.words page i) m

abbrev pub store : ℕ → ℕ → ℕ → M (Unit {0})
store page i w m = ok tt (record m { words = update m.words page (update (m.words page) i w) })

-- `memset(page, c, PGSIZE)`, with `w` the word of four bytes `c`.
abbrev pub fill_page : ℕ → ℕ → M (Unit {0})
fill_page page w m = ok tt (record m { words = update m.words page (λ _. w) })

-- `memmove(dst, src, PGSIZE)` of one page to another.
abbrev pub copy_page : ℕ → ℕ → M (Unit {0})
copy_page dst src m = ok tt (record m { words = update m.words dst (m.words src) })

-- `++pg_refcount[pa >> PGSHIFT]` and `--pg_refcount[pa >> PGSHIFT]` on 8 bits.
abbrev pub inc_refcount : ℕ → M (Unit {0})
inc_refcount pa m = ok tt (record m {
  pg_refcount = update m.pg_refcount (pa / 4096) ((m.pg_refcount (pa / 4096) + 1) % 256);
})

abbrev pub dec_refcount : ℕ → M (Unit {0})
dec_refcount pa m = ok tt (record m {
  pg_refcount = update m.pg_refcount (pa / 4096) ((m.pg_refcount (pa / 4096) + 255) % 256);
})

abbrev pub get_refcount : ℕ → M ℕ
get_refcount pa m = ok (m.pg_refcount (pa / 4096)) m

abbrev pub lcr3 : ℕ → M (Unit {0})
lcr3 pa m = ok tt (record m { cr3 = pa })
