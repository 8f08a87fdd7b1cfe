-- ===== src/Kalloc/Links/Refine.antt =====
-- xv6/kalloc.c: the threaded free list against the list of free pages.
use tp2_ronaldo_joaopedro.Common.{
  ℕ, ◌%◌, ◌^◌, ◌<◌, ◌||◌, ◌!=◌, ==_refl, ==_ne, true, Option, none, some, List, [], ◌∷◌, All, ◌≡◌,
  ◌≢◌, ◌⊎◌, refl, subst, sym, inl, inr, arith, ltb, leb, update, Bool-cases,
}
use tp2_ronaldo_joaopedro.Machine.{Machine, ok, panic, kfree_bad, page_size, phystop, v2p}
use tp2_ronaldo_joaopedro.Kalloc
use tp2_ronaldo_joaopedro.Kalloc.{junk, head_of, take_free}
use tp2_ronaldo_joaopedro.Kalloc.FreeList.{IsFreeable, kfree_lem, freed, NotIn, Distinct}
use tp2_ronaldo_joaopedro.Kalloc.Links.{Kmem, kfree, kalloc}

-- From the address `a`, the links lead through the pages of the list and end there.
abbrev pub Chain : (ℕ → ℕ → ℕ) → ℕ → List ℕ → Type 0
Chain w a [] = a ≡ 0
Chain w a (v ∷ rest) = (a ≡ v) × Chain w (w (v2p v) 0) rest

abbrev pub IsPage : Machine → ℕ → Type 0
IsPage m v = IsFreeable m v × (v < 2 ^ 32)

-- The memory holds the free list, from the address `a` on: pages that kfree takes, none twice.
pub record IsThreaded (m : Machine) (a : ℕ) : Type 0 where
  pub chain : Chain m.words a m.freelist
  pub pages : All (IsPage m) m.freelist
  pub once : Distinct m.freelist

-- The state of the source, with the address `a` in `kmem.freelist`.
abbrev pub kmem : Machine → ℕ → Kmem
kmem m a = record { words = m.words; freelist = a; kernel_end = m.kernel_end }

abbrev pub pointer : Option ℕ → ℕ
pointer none = 0
pointer (some v) = v

page-nonzero : (m : Machine) (v : ℕ) → IsPage m v → v ≢ 0
page-nonzero m v (h, b) e = absurd (omega (arith, h.below_top, e))

v2p_injective : (u v : ℕ) → u < 2 ^ 32 → v < 2 ^ 32 → v2p u ≡ v2p v → u ≡ v
v2p_injective u v p q e = omega (arith, p, q, e)

-- A write to a page that is not free leaves the links as they are.
Chain-update :
    (w : ℕ → ℕ → ℕ) (t : ℕ) (page : ℕ → ℕ) (a : ℕ) (l : List ℕ)
    → All (λ u. v2p u ≢ t) l
    → Chain w a l
    → Chain (update w t page) a l
Chain-update w t page a [] h c = c
Chain-update w t page a (v ∷ rest) h c = (
  c.0,
  rw (==_ne t (v2p v) (λ e. h.0 (sym e))) (Chain-update w t page (w (v2p v) 0) rest h.1 c.1),
)

apart_pages :
    (m : Machine) (v : ℕ) (l : List ℕ)
    → v < 2 ^ 32
    → NotIn v l
    → All (IsPage m) l
    → All (λ u. v2p u ≢ v2p v) l
apart_pages m v [] b h p = tt
apart_pages m v (u ∷ l) b h p =
    (λ e. h.0 (sym (v2p_injective u v p.0.1 b e)), apart_pages m v l b h.1 p.1)

kept_pages :
    (m m' : Machine) (l : List ℕ)
    → m'.kernel_end ≡ m.kernel_end
    → All (IsPage m) l
    → All (IsPage m') l
kept_pages m m' [] e p = tt
kept_pages m m' (u ∷ l) e p = (
  (
    record {
      aligned = p.0.0.aligned;
      past_kernel = omega (arith, e, p.0.0.past_kernel);
      below_top = p.0.0.below_top;
    },
    p.0.1,
  ),
  kept_pages m m' l e p.1,
)

head-Chain : (w : ℕ → ℕ → ℕ) (a : ℕ) (l : List ℕ) → Chain w a l → a ≡ head_of l
head-Chain w a [] c = c
head-Chain w a (v ∷ rest) c = c.0

freed-IsThreaded :
    (m : Machine) (a v : ℕ)
    → IsThreaded m a
    → IsPage m v
    → NotIn v m.freelist
    → IsThreaded (freed m v) v
freed-IsThreaded m a v h p fresh =
    let apart = apart_pages m v m.freelist p.1 fresh h.pages in
    let filled : ℕ → ℕ → ℕ = update m.words (v2p v) (λ _. junk) in
    let linked : ℕ → ℕ = update (filled (v2p v)) 0 (head_of m.freelist) in
    let link : (freed m v).words (v2p v) 0 ≡ a =
      rw (==_refl (v2p v)) (sym (head-Chain m.words a m.freelist h.chain)) in
    record {
      chain = (
        refl,
        subst (λ b. Chain (freed m v).words b m.freelist) (sym link)
            (Chain-update filled (v2p v) linked a m.freelist apart
              (Chain-update m.words (v2p v) (λ _. junk) a m.freelist apart h.chain)),
      );
      pages = kept_pages m (freed m v) (v ∷ m.freelist) refl (p, h.pages);
      once = (fresh, h.once);
    }

-- kfree of an address that is not on the free list.
kfree_refines :
    (m : Machine) (a v : ℕ)
    → IsThreaded m a
    → v < 2 ^ 32
    → NotIn v m.freelist
    → ((Kalloc.kfree v m ≡ panic kfree_bad) × (kfree v (kmem m a) ≡ none))
      ⊎ ((m' : Machine) × (Kalloc.kfree v m ≡ ok tt m')
          × (kfree v (kmem m a) ≡ some (kmem m' v))
          × (m'.freelist ≡ v ∷ m.freelist)
          × IsThreaded m' v)
unfolding kfree Kalloc.kfree
kfree_refines m a v h b fresh =
    elim (Bool-cases ((v % page_size != 0) || ltb v m.kernel_end || leb phystop (v2p v))) [
      | inl bad ↦ inl (rw bad refl, rw bad refl)
      | inr good ↦
          let p : IsFreeable m v = record {
            aligned = ground (arith, good);
            past_kernel = ground (arith, good);
            below_top = ground (arith, good);
          } in
          inr (
            freed m v,
            kfree_lem m v p,
            rw (good, head-Chain m.words a m.freelist h.chain) refl,
            refl,
            freed-IsThreaded m a v h (p, b) fresh,
          )
    ]

by_list :
    (m : Machine) (a : ℕ) (l : List ℕ)
    → l ≡ m.freelist
    → Chain m.words a l
    → All (IsPage m) l
    → Distinct l
    → (r : Option ℕ) × (m' : Machine) × (a' : ℕ) × (take_free l m ≡ ok r m')
      × (kalloc (kmem m a) ≡ (pointer r, kmem m' a'))
      × (l ≡ (elim r [ none ↦ [] | some v ↦ v ∷ m'.freelist ]))
      × IsThreaded m' a'
unfolding kalloc take_free
by_list m a [] e c p d = (
  none,
  m,
  a,
  refl,
  rw c refl,
  refl,
  record { chain = rw (sym e) c; pages = rw (sym e) p; once = rw (sym e) d },
)
by_list m a (v ∷ rest) e c p d =
    let some_page : (a != 0) ≡ true = ground (arith, c.0, page-nonzero m v p.0) in
    let m' : Machine = record m { freelist = rest } in
    (
      some v,
      m',
      m.words (v2p v) 0,
      refl,
      rw (some_page, c.0) refl,
      refl,
      record { chain = c.1; pages = kept_pages m m' rest refl p.1; once = d.1 },
    )

-- Where the memory holds the free list of the machine, of pages that kfree takes and none twice, kfree
-- of a 32-bit address that is not on the list, and kalloc, do on the links in the pages what they do on
-- the list: both panic, or both have the same memory and result, which holds the new free list: with the
-- page freed in front, or without the page handed out, which was its first, or 0 and unchanged where it
-- was empty. A write to a page that is not free keeps the links as well.
pub kmem_refines :
    (m : Machine) (a v : ℕ)
    → IsThreaded m a
    → v < 2 ^ 32
    → NotIn v m.freelist
    → (((Kalloc.kfree v m ≡ panic kfree_bad) × (kfree v (kmem m a) ≡ none))
        ⊎ ((m' : Machine) × (Kalloc.kfree v m ≡ ok tt m')
            × (kfree v (kmem m a) ≡ some (kmem m' v))
            × (m'.freelist ≡ v ∷ m.freelist)
            × IsThreaded m' v))
      × ((r : Option ℕ) × (m' : Machine) × (a' : ℕ) × (Kalloc.kalloc m ≡ ok r m')
          × (kalloc (kmem m a) ≡ (pointer r, kmem m' a'))
          × (m.freelist ≡ (elim r [ none ↦ [] | some u ↦ u ∷ m'.freelist ]))
          × IsThreaded m' a')
      × ((t : ℕ) (page : ℕ → ℕ)
          → All (λ u. v2p u ≢ t) m.freelist
          → IsThreaded (record m { words = update m.words t page }) a)
unfolding Kalloc.kalloc
kmem_refines m a v h b fresh = (
  kfree_refines m a v h b fresh,
  by_list m a m.freelist refl h.chain h.pages h.once,
  λ t page apart. record {
    chain = Chain-update m.words t page a m.freelist apart h.chain;
    pages = kept_pages m (record m { words = update m.words t page }) m.freelist refl h.pages;
    once = h.once;
  },
)
