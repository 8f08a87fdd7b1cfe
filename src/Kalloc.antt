-- ===== src/Kalloc.antt =====
-- xv6/kalloc.c: the allocator of physical pages, as the rest of the kernel sees it: the free list is
-- the list of its pages. Kalloc.Links has the allocator as the source keeps it, with the list threaded
-- through the free pages. The lock around it is not part of the state.
pub mod FreeList
pub mod Links
mod Tests
use tp2_ronaldo_joaopedro.Common.{
  ℕ, zero, suc, ◌+◌, ◌-◌, ◌/◌, ◌%◌, ◌^◌, Bool, true, false, ◌||◌, Option, none, some, List, [], ◌∷◌,
  ltb, leb, ◌!=◌, update, if◌then◌else◌,
}
use tp2_ronaldo_joaopedro.Machine.{
  Machine, Outcome, ok, panic, hang, M, pure, fail, ◌>>=◌, ◌>>◌, fill_page, kfree_bad, page_size,
  phystop, v2p, add32, sub32, pg_round_up,
}

-- The word that `memset(v, 1, PGSIZE)` leaves everywhere.
abbrev pub junk : ℕ
junk = 0x01010101

-- The first page of a free list, 0 for none.
abbrev pub head_of : List ℕ → ℕ
head_of [] = 0
head_of (v ∷ rest) = v

-- `r->next = kmem.freelist; kmem.freelist = r`: the first word of the page is the link.
abbrev pub push_free : ℕ → M (Unit {0})
push_free v m = ok tt (record m {
  words = update m.words (v2p v) (update (m.words (v2p v)) 0 (head_of m.freelist));
  freelist = v ∷ m.freelist;
})

-- `end`, the first address after the kernel.
abbrev pub get_end : M ℕ
get_end m = ok m.kernel_end m

unfoldable pub kfree : ℕ → M (Unit {0})
kfree v = do
  kend ← get_end
  if (v % page_size != 0) || ltb v kend || leb phystop (v2p v)
      then fail kfree_bad
      else fill_page (v2p v) junk >> push_free v

-- `none` is the null pointer.
unfoldable pub take_free : List ℕ → M (Option ℕ)
take_free [] m = ok none m
take_free (v ∷ rest) m = ok (some v) (record m { freelist = rest })

unfoldable pub kalloc : M (Option ℕ)
unfolding take_free
kalloc m = take_free m.freelist m

-- The loop of `freerange`, with fuel.
unfoldable pub freerange_from : ℕ → ℕ → ℕ → M (Unit {0})
freerange_from zero p vend = λ m. hang
freerange_from (suc fuel) p vend =
    let rest = freerange_from fuel (p + page_size) vend in
    if leb (p + page_size) vend then kfree p >> rest else pure tt

unfoldable pub freerange : ℕ → ℕ → M (Unit {0})
unfolding freerange_from
freerange vstart vend =
    let p = pg_round_up vstart in freerange_from (suc ((vend - p) / page_size)) p vend

abbrev set_use_lock : Bool → M (Unit {0})
set_use_lock b m = ok tt (record m { use_lock = b })

unfoldable pub kinit1 : ℕ → ℕ → M (Unit {0})
unfolding freerange
kinit1 vstart vend = set_use_lock false >> freerange vstart vend

unfoldable pub kinit2 : ℕ → ℕ → M (Unit {0})
unfolding freerange
kinit2 vstart vend = freerange vstart vend >> set_use_lock true
