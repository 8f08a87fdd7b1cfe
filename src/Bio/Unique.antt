-- ===== src/Bio/Unique.antt =====
-- xv6/bio.c: how many buffers a block has, and which buffers are given to another block.
use tp2_ronaldo_joaopedro.Common.{
  ℕ, ◌+◌, ◌<◌, ◌≤◌, Bool, true, false, not, ◌&&◌, Option, none, some, List, [], ◌∷◌, ◌≡◌, refl,
  subst, sym, ◌∙◌, inl, inr, arith, ◌==◌, if◌then◌else◌, Bool-cases, Option-cases,
}
use tp2_ronaldo_joaopedro.Bio.{
  Buf, has_key, is_spare, find_cached, recycled, recycle, bget, take_out, drop_refcnt, brelse,
}

-- How many buffers pass a test.
abbrev pub count : (Buf → Bool) → List Buf → ℕ
count test [] = 0
count test (b ∷ bs) = (if test b then 1 else 0) + count test bs

-- A buffer of a block that may not be given to another block.
abbrev pub is_pinned : ℕ → ℕ → Buf → Bool
is_pinned dev blockno b = has_key dev blockno b && not (is_spare b)

-- No block of a device from 1 on has two buffers; those never used are of block 0 of device 0.
abbrev pub IsUnique : List Buf → Type 0
IsUnique bs = (dev blockno : ℕ) → 0 < dev → count (has_key dev blockno) bs ≤ 1

-- What a search of the cache for a block comes to.
abbrev pub Found : ℕ → ℕ → List Buf → Option (ℕ × List Buf) → Type 0
Found dev blockno bs none = count (has_key dev blockno) bs ≡ 0
Found dev blockno bs (some (i, bs')) =
    (d n : ℕ)
    → (count (has_key d n) bs' ≡ count (has_key d n) bs)
      × (count (is_pinned d n) bs ≤ count (is_pinned d n) bs')

find_cached-Found :
    (dev blockno : ℕ) (bs : List Buf) → Found dev blockno bs (find_cached dev blockno bs)
unfolding find_cached
find_cached-Found dev blockno [] = refl
find_cached-Found dev blockno (b ∷ bs) = elim (Bool-cases (has_key dev blockno b)) [
  | inl hit ↦ rw hit (λ d n. (ground arith, ground arith))
  | inr miss ↦ rw miss (later (find_cached dev blockno bs) (find_cached-Found dev blockno bs) miss)
]
  where
    later :
        (o : Option (ℕ × List Buf))
        → Found dev blockno bs o
        → has_key dev blockno b ≡ false
        → Found dev blockno (b ∷ bs) (elim o [ none ↦ none | some (i, bs') ↦ some (i, b ∷ bs') ])
    later none h miss = ground (arith, h, miss)
    later (some (i, bs')) h miss = λ d n. (omega (arith, (h d n).0), omega (arith, (h d n).1))

-- A buffer is recycled: only the block that it is for gets one more buffer.
abbrev pub Recycled : ℕ → ℕ → List Buf → Option (ℕ × List Buf) → Type 0
Recycled dev blockno bs none = Unit {0}
Recycled dev blockno bs (some (i, bs')) =
    (d n : ℕ)
    → (count (has_key d n) bs'
        ≤ count (has_key d n) bs + (if (dev == d) && (blockno == n) then 1 else 0))
      × (count (is_pinned d n) bs ≤ count (is_pinned d n) bs')

recycle-Recycled :
    (dev blockno : ℕ) (bs : List Buf) → Recycled dev blockno bs (recycle dev blockno bs)
unfolding recycle
recycle-Recycled dev blockno [] = tt
recycle-Recycled dev blockno (b ∷ bs) =
    by_rest (recycle dev blockno bs) (recycle-Recycled dev blockno bs)
  where
    by_rest :
        (o : Option (ℕ × List Buf))
        → Recycled dev blockno bs o
        → Recycled dev blockno (b ∷ bs) (elim o [
          | some (i, bs') ↦ some (i, b ∷ bs')
          | none ↦ if is_spare b then some (b.slot, recycled dev blockno b ∷ bs) else none
        ])
    by_rest (some (i, bs')) h = λ d n. (omega (arith, (h d n).0), omega (arith, (h d n).1))
    by_rest none h = elim (Bool-cases (is_spare b)) [
      | inl spare ↦ rw spare (λ d n. (ground arith, ground (arith, spare)))
      | inr busy ↦ rw busy tt
    ]

count-absent :
    (dev blockno d n : ℕ) (bs : List Buf)
    → ((dev == d) && (blockno == n)) ≡ true
    → count (has_key dev blockno) bs ≡ 0
    → count (has_key d n) bs ≡ 0
count-absent dev blockno d n bs asked absent =
    let dev_d : dev ≡ d = ground (arith, asked) in
    let block_n : blockno ≡ n = ground (arith, asked) in
    subst (λ x. count (has_key x n) bs ≡ 0) dev_d
      (subst (λ y. count (has_key dev y) bs ≡ 0) block_n absent)

-- A bget of a block of a device from 1 on, where it returns, leaves at most one buffer for each block
-- if it was so before, and takes no buffer that is held or dirty away from its block.
pub bget-IsUnique :
    (dev blockno i : ℕ) (bs bs' : List Buf)
    → 0 < dev
    → IsUnique bs
    → bget dev blockno bs ≡ some (i, bs')
    → IsUnique bs' × ((d n : ℕ) → count (is_pinned d n) bs ≤ count (is_pinned d n) bs')
unfolding bget
bget-IsUnique dev blockno i bs bs' pos v e =
    by_search (find_cached dev blockno bs) (find_cached-Found dev blockno bs) refl
  where
    Kept : Type 0
    Kept = IsUnique bs' × ((d n : ℕ) → count (is_pinned d n) bs ≤ count (is_pinned d n) bs')

    by_recycle :
        (o : Option (ℕ × List Buf))
        → Recycled dev blockno bs o
        → o ≡ some (i, bs')
        → count (has_key dev blockno) bs ≡ 0
        → Kept
    by_recycle none h is absent = absurd (ground (arith, is))
    by_recycle (some (j, cs)) h is absent =
        let same : cs ≡ bs' = ground (arith, is) in
        rw (sym same) (
          λ d n p. elim (Bool-cases ((dev == d) && (blockno == n))) [
            | inl asked ↦
                omega (arith, rw asked at (h d n).0, count-absent dev blockno d n bs asked absent)
            | inr other ↦ omega (arith, rw other at (h d n).0, v d n p)
          ],
          λ d n. (h d n).1,
        )

    by_search :
        (o : Option (ℕ × List Buf)) → Found dev blockno bs o → find_cached dev blockno bs ≡ o → Kept
    by_search none h is =
        by_recycle (recycle dev blockno bs) (recycle-Recycled dev blockno bs) (rw (is, bget) at e) h
    by_search (some (j, cs)) h is =
        let same : cs ≡ bs' = ground (arith, (rw (is, bget) at e)) in
        rw (sym same) (λ d n p. omega (arith, (h d n).0, v d n p), λ d n. (h d n).1)

take_out-count :
    (test : Buf → Bool) (slot : ℕ) (bs rest : List Buf) (b : Buf)
    → take_out slot bs ≡ some (b, rest)
    → count test bs ≡ (if test b then 1 else 0) + count test rest
unfolding take_out
take_out-count test slot [] rest b e = absurd (ground (arith, e))
take_out-count test slot (c ∷ bs) rest b e = elim (Bool-cases (c.slot == slot)) [
  | inl here ↦ ground (arith, here, e)
  | inr there ↦ elim (Option-cases (take_out slot bs)) [
    | inl nobody ↦ absurd (ground (arith, there, nobody, e))
    | inr ((d, ds), found) ↦ ground (arith, there, found, e, take_out-count test slot bs ds d found)
  ]
]

drop_refcnt-count :
    (dev blockno slot : ℕ) (bs : List Buf)
    → count (has_key dev blockno) (drop_refcnt slot bs) ≡ count (has_key dev blockno) bs
unfolding drop_refcnt
drop_refcnt-count dev blockno slot [] = refl
drop_refcnt-count dev blockno slot (b ∷ bs) = ground (arith, drop_refcnt-count dev blockno slot bs)

-- A brelse gives no block another number of buffers.
pub brelse-count :
    (dev blockno slot : ℕ) (bs : List Buf)
    → count (has_key dev blockno) (brelse slot bs) ≡ count (has_key dev blockno) bs
unfolding brelse
brelse-count dev blockno slot bs = elim (Option-cases (take_out slot (drop_refcnt slot bs))) [
  | inl nobody ↦ rw (nobody, brelse) refl
  | inr ((b, rest), found) ↦
      let kept =
        sym (take_out-count (has_key dev blockno) slot (drop_refcnt slot bs) rest b found)
        ∙ drop_refcnt-count dev blockno slot bs in
      rw (found, brelse)
        (elim (Bool-cases (b.refcnt == 0)) [
          | inl last ↦ rw last kept
          | inr held ↦ rw held (drop_refcnt-count dev blockno slot bs)
        ])
]
