-- ===== src/Fs/Inodes/Cache.antt =====
-- xv6/fs.c: the entries of the inode cache, by inode.
use tp2_ronaldo_joaopedro.Common.{
  ℕ, zero, suc, ◌+◌, ◌<◌, ◌≤◌, true, false, Option, none, some, ◌≡◌, ◌⊎◌, refl, sym, ◌∙◌, inl, inr,
  arith, ◌==◌, update, if◌then◌else◌, Bool-cases, subst,
}
use tp2_ronaldo_joaopedro.Fs.{Inode, Fs, Outcome, ok, stop, icache_full}
use tp2_ronaldo_joaopedro.Fs.Inodes.{
  Search, cached, spare, has_inode, search, claim, recycled, iget,
}

-- The entry that the search offers, given one that it has passed.
abbrev Offered : (ℕ → Inode) → ℕ → ℕ → Option ℕ → Option ℕ → Type 0
Offered inodes i left (some j) o = o ≡ some j
Offered inodes i left none none = (k : ℕ) → i ≤ k → k < i + left → ((inodes k).ref == 0) ≡ false
Offered inodes i left none (some j) = (i ≤ j) × (j < i + left) × ((inodes j).ref ≡ 0)

abbrev Searched : (ℕ → Inode) → ℕ → ℕ → ℕ → ℕ → Option ℕ → Search → Type 0
Searched inodes dev inum i left empty (cached j) =
    (i ≤ j) × (j < i + left) × (has_inode dev inum (inodes j) ≡ true)
Searched inodes dev inum i left empty (spare o) =
    ((k : ℕ) → i ≤ k → k < i + left → has_inode dev inum (inodes k) ≡ false)
    × Offered inodes i left empty o

module _ (inodes : ℕ → Inode) (dev inum : ℕ) where
  not_here :
      (i left : ℕ)
      → has_inode dev inum (inodes i) ≡ false
      → ((k : ℕ) → i + 1 ≤ k → k < i + 1 + left → has_inode dev inum (inodes k) ≡ false)
      → (k : ℕ) → i ≤ k
      → k < i + suc left
      → has_inode dev inum (inodes k) ≡ false
  not_here i left miss h k p q = elim (Bool-cases (i == k)) [
    | inl here ↦ subst (λ x. has_inode dev inum (inodes x) ≡ false) (ground (arith, here)) miss
    | inr there ↦ h k (ground (arith, there, p)) (omega (arith, q))
  ]

  busy_here :
      (i left : ℕ)
      → ((inodes i).ref == 0) ≡ false
      → ((k : ℕ) → i + 1 ≤ k → k < i + 1 + left → ((inodes k).ref == 0) ≡ false)
      → (k : ℕ) → i ≤ k
      → k < i + suc left
      → ((inodes k).ref == 0) ≡ false
  busy_here i left miss h k p q = elim (Bool-cases (i == k)) [
    | inl here ↦ subst (λ x. ((inodes x).ref == 0) ≡ false) (ground (arith, here)) miss
    | inr there ↦ h k (ground (arith, there, p)) (omega (arith, q))
  ]

  after_passed :
      (i left j : ℕ) (r : Search)
      → has_inode dev inum (inodes i) ≡ false
      → Searched inodes dev inum (i + 1) left (some j) r
      → Searched inodes dev inum i (suc left) (some j) r
  after_passed i left j (cached k) miss h = (omega (arith, h.0), omega (arith, h.1), h.2)
  after_passed i left j (spare o) miss h = (not_here i left miss h.0, h.1)

  after_empty :
      (i left : ℕ) (r : Search)
      → has_inode dev inum (inodes i) ≡ false
      → (inodes i).ref ≡ 0
      → Searched inodes dev inum (i + 1) left (some i) r
      → Searched inodes dev inum i (suc left) none r
  after_empty i left (cached k) miss z h = (omega (arith, h.0), omega (arith, h.1), h.2)
  after_empty i left (spare none) miss z h = absurd (ground (arith, h.1))
  after_empty i left (spare (some j)) miss z h =
      let e : i ≡ j = ground (arith, h.1) in
      (
        not_here i left miss h.0,
        (omega (arith, e), omega (arith, e), subst (λ x. (inodes x).ref ≡ 0) e z),
      )

  after_busy :
      (i left : ℕ) (r : Search)
      → has_inode dev inum (inodes i) ≡ false
      → ((inodes i).ref == 0) ≡ false
      → Searched inodes dev inum (i + 1) left none r
      → Searched inodes dev inum i (suc left) none r
  after_busy i left (cached k) miss z h = (omega (arith, h.0), omega (arith, h.1), h.2)
  after_busy i left (spare none) miss z h = (not_here i left miss h.0, busy_here i left z h.1)
  after_busy i left (spare (some j)) miss z h =
      (not_here i left miss h.0, (omega (arith, h.1.0), omega (arith, h.1.1), h.1.2))

  search-Searched :
      (i left : ℕ) (empty : Option ℕ)
      → Searched inodes dev inum i left empty (search inodes dev inum i left empty)
  unfolding search
  search-Searched i zero none = (λ k p q. absurd (omega arith), λ k p q. absurd (omega arith))
  search-Searched i zero (some j) = (λ k p q. absurd (omega arith), refl)
  search-Searched i (suc left) empty = elim (Bool-cases (has_inode dev inum (inodes i))) [
    | inl hit ↦ rw hit (omega arith, omega arith, hit)
    | inr miss ↦ rw miss (on empty miss (λ e. search-Searched (i + 1) left e))
  ]
    where
      on :
          (e : Option ℕ)
          → has_inode dev inum (inodes i) ≡ false
          → ((e' : Option ℕ)
              → Searched inodes dev inum (i + 1) left e' (search inodes dev inum (i + 1) left e'))
          → Searched inodes dev inum i (suc left) e (elim e [
            | some j ↦ search inodes dev inum (i + 1) left (some j)
            | none ↦
                if (inodes i).ref == 0
                then search inodes dev inum (i + 1) left (some i)
                else search inodes dev inum (i + 1) left none
          ])
      on (some j) miss h = after_passed i left j _ miss (h (some j))
      on none miss h = elim (Bool-cases ((inodes i).ref == 0)) [
        | inl z ↦ rw z (after_empty i left _ miss (ground (arith, z)) (h (some i)))
        | inr b ↦ rw b (after_busy i left _ miss b (h none))
      ]

-- No two slots of the cache are in use for the same inode.
abbrev pub IsUnique : (ℕ → Inode) → Type 0
IsUnique inodes =
    (dev inum i j : ℕ)
    → i < 50
    → j < 50
    → has_inode dev inum (inodes i) ≡ true
    → has_inode dev inum (inodes j) ≡ true
    → i ≡ j

-- What `iget` comes to.
abbrev pub Iget : ℕ → ℕ → Fs → Outcome ℕ → Type 0
Iget dev inum s o =
    ((o ≡ stop icache_full)
      × ((k : ℕ) → k < 50 → ((s.inodes k).ref == 0) ≡ false)
      × ((k : ℕ) → k < 50 → has_inode dev inum (s.inodes k) ≡ false))
    ⊎ ((i : ℕ) × (ip : Inode) × (o ≡ ok i (record s { inodes = update s.inodes i ip }))
        × (i < 50)
        × (has_inode dev inum ip ≡ true)
        × (ip.ref ≡ (s.inodes i).ref + 1)
        × (ip.locked ≡ (s.inodes i).locked)
        × ((has_inode dev inum (s.inodes i) ≡ true) ⊎ ((s.inodes i).ref ≡ 0))
        × IsUnique (update s.inodes i ip))

-- A slot is written with an entry that only names an inode that it named before, or that had no
-- slot at all.
written-IsUnique :
    (inodes : ℕ → Inode) (i : ℕ) (ip : Inode)
    → i < 50
    → IsUnique inodes
    → ((d n : ℕ)
        → has_inode d n ip ≡ true
        → (has_inode d n (inodes i) ≡ true) ⊎ ((k : ℕ) → k < 50 → has_inode d n (inodes k) ≡ false))
    → IsUnique (update inodes i ip)
written-IsUnique inodes i ip lt u h d n a b p q ea eb = elim (Bool-cases (i == a)) [
  | inl ia ↦
      let e : i ≡ a = ground (arith, ia) in
      elim (Bool-cases (i == b)) [
        | inl ib ↦ sym e ∙ ground (arith, ib)
        | inr nb ↦ sym e ∙ other b q (rw ia at ea) (rw nb at eb)
      ]
  | inr na ↦ elim (Bool-cases (i == b)) [
    | inl ib ↦ let e : i ≡ b = ground (arith, ib) in sym (other a p (rw ib at eb) (rw na at ea)) ∙ e
    | inr nb ↦ u d n a b p q (rw na at ea) (rw nb at eb)
  ]
]
  where
    other : (k : ℕ) → k < 50 → has_inode d n ip ≡ true → has_inode d n (inodes k) ≡ true → i ≡ k
    other k r e1 e2 = elim (h d n e1) [
      | inl old ↦ u d n i k lt r old e2
      | inr nobody ↦ absurd (ground (arith, nobody k r, e2))
    ]

-- iget, on a cache with at most one slot in use for each inode, returns a slot that is in use for
-- the inode, with one reference more, which was in use for it before or free, and leaves the other
-- slots as they are and the cache with at most one slot for each inode; it panics only where all
-- slots are in use for other inodes.
pub iget-IsUnique : (dev inum : ℕ) (s : Fs) → IsUnique s.inodes → Iget dev inum s (iget dev inum s)
unfolding iget
iget-IsUnique dev inum s u =
    by_search (search s.inodes dev inum 0 50 none) (search-Searched s.inodes dev inum 0 50 none)
  where
    by_search :
        (r : Search) → Searched s.inodes dev inum 0 50 none r → Iget dev inum s (claim dev inum r s)
    by_search (cached i) h = inr (
      i,
      record (s.inodes i) { ref = (s.inodes i).ref + 1 },
      refl,
      h.1,
      ground (arith, h.2),
      refl,
      refl,
      inl h.2,
      written-IsUnique s.inodes i (record (s.inodes i) { ref = (s.inodes i).ref + 1 }) h.1 u
          (λ d n e. inl (ground (arith, e, h.2))),
    )
    by_search (spare none) h =
        inl (refl, λ k p. h.1 k (omega arith) p, λ k p. h.0 k (omega arith) p)
    by_search (spare (some i)) h = inr (
      i,
      recycled dev inum (s.inodes i),
      refl,
      h.1.1,
      ground arith,
      omega (arith, h.1.2),
      refl,
      inr h.1.2,
      written-IsUnique s.inodes i (recycled dev inum (s.inodes i)) h.1.1 u (λ d n e. inr λ k p.
          let ed : dev ≡ d = ground (arith, e) in
          let en : inum ≡ n = ground (arith, e) in
          subst (λ x. has_inode x n (s.inodes k) ≡ false) ed
            (subst (λ y. has_inode dev y (s.inodes k) ≡ false) en (h.0 k (omega arith) p))),
    )
