-- ===== src/Fs/Blocks/Bitmap.antt =====
-- xv6/fs.c: what `balloc` and `bfree` do to the bitmap.
use tp2_ronaldo_joaopedro.Common.{
  ℕ, zero, suc, ◌+◌, ◌-◌, ◌*◌, ◌/◌, ◌%◌, ◌^◌, ◌<◌, ◌≤◌, min, bit_and, bit_or, Bool, true, false,
  Option, none, some, ◌≡◌, ◌≢◌, ◌⊎◌, refl, ap, sym, ◌∙◌, subst, inl, inr, arith, ◌==◌, ltb, update,
  if◌then◌else◌, Bool-cases,
}
use tp2_ronaldo_joaopedro.Fs.{
  Fs, Outcome, ok, stop, Bytes, fill, write_block, F, fail, out_of_blocks, freeing_free,
}
use tp2_ronaldo_joaopedro.Fs.Room.{HasRoom, bind-ok, write_block-HasRoom}
use tp2_ronaldo_joaopedro.Fs.Blocks.{
  bpb, bblock, readsb, bzero, is_free, mark, unmark, find_free, take_block, balloc_from, balloc,
  bfree, clear_block,
}
use tp2_ronaldo_joaopedro.Fs.Blocks.Bit.{unset_iff, bit-set, bit-cleared}

-- A bit is named by its byte and its place there.
same_place : (j k : ℕ) → (j / 8 == k / 8) ≡ true → (j == k) ≡ (j % 8 == k % 8)
same_place j k h = ground (arith, h)

other_byte : (j k : ℕ) → (j / 8 == k / 8) ≡ false → (j == k) ≡ false
other_byte j k h = ground (arith, h)

mark-is_free :
    (v : Bytes) (j k : ℕ) → is_free (mark v j) k ≡ (if j == k then false else is_free v k)
unfolding is_free mark
mark-is_free v j k = elim (Bool-cases (j / 8 == k / 8)) [
  | inl byte ↦
      let w : v (j / 8) ≡ v (k / 8) = ap v (ground (arith, byte)) in
      rw
        (
          byte,
          same_place j k byte,
          unset_iff (bit_or (v (j / 8)) (2 ^ (j % 8))) (k % 8),
          bit-set (v (j / 8)) (j % 8) (k % 8),
          unset_iff (v (k / 8)) (k % 8),
          w,
        )
        (elim (Bool-cases (j % 8 == k % 8)) [ inl same ↦ rw same refl | inr ne ↦ rw ne refl ])
  | inr other ↦ rw (other, other_byte j k other) refl
]

unmark-is_free :
    (v : Bytes) (j k : ℕ) → is_free (unmark v j) k ≡ (if j == k then true else is_free v k)
unfolding is_free unmark
unmark-is_free v j k = elim (Bool-cases (j / 8 == k / 8)) [
  | inl byte ↦
      let w : v (j / 8) ≡ v (k / 8) = ap v (ground (arith, byte)) in
      rw
        (
          byte,
          same_place j k byte,
          unset_iff (bit_and (v (j / 8)) (255 - 2 ^ (j % 8))) (k % 8),
          bit-cleared (v (j / 8)) (j % 8) (k % 8) (omega arith) (omega arith),
          unset_iff (v (k / 8)) (k % 8),
          w,
        )
        (elim (Bool-cases (j % 8 == k % 8)) [ inl same ↦ rw same refl | inr ne ↦ rw ne refl ])
  | inr other ↦ rw (other, other_byte j k other) refl
]

-- What a search of `left` bits from `bi` on comes to.
abbrev pub Found : Bytes → ℕ → ℕ → Option ℕ → Type 0
Found v bi left none = (k : ℕ) → bi ≤ k → k < bi + left → is_free v k ≡ false
Found v bi left (some r) = (bi ≤ r) × (r < bi + left) × (is_free v r ≡ true)

find_free-Found : (v : Bytes) (bi left : ℕ) → Found v bi left (find_free v bi left)
unfolding find_free
find_free-Found v bi zero = λ k p q. absurd (omega arith)
find_free-Found v bi (suc left) = elim (Bool-cases (is_free v bi)) [
  | inl free ↦ rw free (omega arith, omega arith, free)
  | inr used ↦ rw used (later (find_free v (bi + 1) left) (find_free-Found v (bi + 1) left) used)
]
  where
    later :
        (o : Option ℕ) → Found v (bi + 1) left o → is_free v bi ≡ false → Found v bi (suc left) o
    later none h used = λ k p q. elim (Bool-cases (bi == k)) [
      | inl here ↦ subst (λ x. is_free v x ≡ false) (ground (arith, here)) used
      | inr there ↦ h k (ground (arith, there)) (omega arith)
    ]
    later (some r) h used = (omega (arith, h.0), omega (arith, h.1), h.2)

-- Block `c` is free by the bitmap.
unfoldable pub block_free : Fs → ℕ → Bool
block_free s c = is_free (s.blocks (bblock c s.sb)) (c % bpb)

-- The blocks of the bitmap are in use themselves.
abbrev pub IsBitmap : Fs → Type 0
IsBitmap s = (c : ℕ) → c < s.sb.size → block_free s (bblock c s.sb) ≡ false

-- What has changed with the allocation of block `b`.
pub record Allocated (s s' : Fs) (b : ℕ) : Type 0 where
  pub inside : b < s.sb.size
  pub was_free : block_free s b ≡ true
  pub same_sb : s'.sb ≡ s.sb
  pub same_inodes : s'.inodes ≡ s.inodes
  pub bitmap :
      (c : ℕ) → c < s.sb.size → block_free s' c ≡ (if b == c then false else block_free s c)
  pub zeroed : (k : ℕ) → k < 512 → s'.blocks b k ≡ 0
  pub others : (c : ℕ) → b ≢ c → bblock b s.sb ≢ c → s'.blocks c ≡ s.blocks c

take_block-Allocated :
    (n b bi : ℕ) (s : Fs)
    → HasRoom (suc (suc n)) s.log
    → IsBitmap s
    → b % bpb ≡ 0
    → bi < bpb
    → b + bi < s.sb.size
    → is_free (s.blocks (bblock b s.sb)) bi ≡ true
    → (s' : Fs) × (take_block b bi s ≡ ok (b + bi) s') × Allocated s s' (b + bi) × HasRoom n s'.log
unfolding take_block bzero block_free
take_block-Allocated n b bi s room in_use aligned lt lt' free =
    let v = mark (s.blocks (bblock b s.sb)) bi in
    let (l1, e1, r1) = write_block-HasRoom (suc n) (bblock b s.sb) v s room in
    let s1 : Fs = record s { blocks = update s.blocks (bblock b s.sb) v; log = l1 } in
    let z : Bytes = fill (s1.blocks (b + bi)) 0 0 512 in
    let (l2, e2, r2) = write_block-HasRoom n (b + bi) z s1 r1 in
    (
      record s1 { blocks = update s1.blocks (b + bi) z; log = l2 },
      bind-ok (write_block (bblock b s.sb) v) _ s e1
          (bind-ok (write_block (b + bi) z) _ s1 e2 refl),
      record {
        inside = lt';
        was_free = was_free;
        same_sb = refl;
        same_inodes = refl;
        bitmap = λ c p. rw (apart c p) (marked c);
        zeroed = λ k p. ground (arith, p);
        others = λ c p q. ground (arith, p, q);
      },
      r2,
    )
  where
    the_byte : (b + bi) / 4096 ≡ b / 4096
    the_byte = omega (arith, aligned, lt)

    the_bit : (b + bi) % 4096 ≡ bi
    the_bit = omega (arith, aligned, lt)

    was_free : block_free s (b + bi) ≡ true
    was_free = rw (the_byte, the_bit) free

    apart : (c : ℕ) → c < s.sb.size → (b + bi == bblock c s.sb) ≡ false
    apart c p = elim (Bool-cases (b + bi == bblock c s.sb)) [
      | inl same ↦
          let e : b + bi ≡ bblock c s.sb = ground (arith, same) in
          absurd (ground (arith, in_use c p, sym was_free ∙ ap (block_free s) e))
      | inr other ↦ other
    ]

    marked :
        (c : ℕ)
        → is_free
            (update s.blocks (bblock b s.sb) (mark (s.blocks (bblock b s.sb)) bi) (bblock c s.sb))
            (c % 4096)
          ≡ (if b + bi == c then false else is_free (s.blocks (bblock c s.sb)) (c % 4096))
    marked c = elim (Bool-cases (bblock b s.sb == bblock c s.sb)) [
      | inl same ↦
          let e : bblock b s.sb ≡ bblock c s.sb = ground (arith, same) in
          let bits : (b + bi == c) ≡ (bi == c % 4096) = ground (arith, same, aligned, lt) in
          rw (same, bits, e, mark-is_free (s.blocks (bblock c s.sb)) bi (c % 4096)) refl
      | inr other ↦
          let ne : (b + bi == c) ≡ false = ground (arith, other, aligned, lt) in rw (other, ne) refl
    ]

abbrev run_found : ℕ → F ℕ → Option ℕ → F ℕ
run_found b rest o = elim o [ some bi ↦ take_block b bi | none ↦ rest ]

-- What `balloc` comes to, with room for `n` more blocks in the log.
abbrev pub Balloc : ℕ → Fs → Outcome ℕ → Type 0
Balloc n s o =
    ((o ≡ stop out_of_blocks) × ((c : ℕ) → c < s.sb.size → block_free s c ≡ false))
    ⊎ ((b : ℕ) × (s' : Fs) × (o ≡ ok b s') × Allocated s s' b × HasRoom n s'.log)

balloc_from-Balloc :
    (n fuel b : ℕ) (s : Fs)
    → HasRoom (suc (suc n)) s.log
    → IsBitmap s
    → b % 4096 ≡ 0
    → s.sb.size + 4096 ≤ b + 4096 * fuel
    → b < s.sb.size + 4096
    → ((c : ℕ) → c < b → c < s.sb.size → block_free s c ≡ false)
    → Balloc n s (balloc_from fuel b s)
unfolding balloc_from block_free
balloc_from-Balloc n zero b s room in_use aligned enough near below = absurd (omega arith)
balloc_from-Balloc n (suc fuel) b s room in_use aligned enough near below =
    elim (Bool-cases (ltb b s.sb.size)) [
      | inr past ↦ rw past (inl (refl, λ c p. below c (ground (arith, past, p)) p))
      | inl more ↦ rw more (
          search (λ m a l. balloc_from-Balloc n fuel (b + 4096) s room in_use (omega arith) m a l)
            (ground (arith, more))
            (find_free (s.blocks (bblock b s.sb)) 0 (min 4096 (s.sb.size - b)))
            (find_free-Found (s.blocks (bblock b s.sb)) 0 (min 4096 (s.sb.size - b))))
    ]
  where
    all_used :
        ((k : ℕ)
          → 0 ≤ k
          → k < 0 + min 4096 (s.sb.size - b)
          → is_free (s.blocks (bblock b s.sb)) k ≡ false)
        → (c : ℕ) → c < b + 4096
        → c < s.sb.size
        → block_free s c ≡ false
    all_used h c p q = elim (Bool-cases (ltb c b)) [
      | inl before ↦ below c (ground (arith, before)) q
      | inr here ↦
          let byte : c / 4096 ≡ b / 4096 = ground (arith, here, p, aligned) in
          rw byte (h (c % 4096) (omega arith) (ground (arith, here, p, q, aligned)))
    ]

    search :
        (s.sb.size + 4096 ≤ b + 4096 + 4096 * fuel
          → b + 4096 < s.sb.size + 4096
          → ((c : ℕ) → c < b + 4096 → c < s.sb.size → block_free s c ≡ false)
          → Balloc n s (balloc_from fuel (b + 4096) s))
        → b < s.sb.size
        → (o : Option ℕ) → Found (s.blocks (bblock b s.sb)) 0 (min 4096 (s.sb.size - b)) o
        → Balloc n s (run_found b (balloc_from fuel (b + 4096)) o s)
    search later lt none h = later (omega arith) (omega arith) (all_used h)
    search later lt (some bi) h =
        let (s', e, a, r) =
          take_block-Allocated n b bi s room in_use aligned (omega (arith, h.1))
            (omega (arith, h.1)) h.2 in
        inr (b + bi, s', e, a, r)

-- In a transaction whose log has room for two blocks, where the blocks of the bitmap are marked as
-- used themselves, balloc returns a block that was free, now marked as used and filled with zeros,
-- with every other mark and every block but it and its bitmap block as before, or every block of the
-- file system is in use and it panics.
pub balloc-Allocated :
    (n : ℕ) (s : Fs) → HasRoom (suc (suc n)) s.log → IsBitmap s → Balloc n s (balloc s)
unfolding balloc
balloc-Allocated n s room in_use =
    balloc_from-Balloc n (s.sb.size / 4096 + 2) 0 s room in_use (omega arith) (omega arith)
      (omega arith) (λ c p q. absurd (omega arith))

-- bfree, with a superblock in memory that is the one on the disk, panics on a free block; else it
-- marks the block as free and leaves every other mark and every block outside the bitmap as before,
-- given room in the log for one block.
pub bfree-Freed :
    (n b : ℕ) (s : Fs)
    → HasRoom (suc n) s.log
    → readsb s ≡ ok tt s
    → ((block_free s b ≡ true) × (bfree b s ≡ stop freeing_free))
      ⊎ ((block_free s b ≡ false)
          × (s' : Fs) × (bfree b s ≡ ok tt s')
          × ((c : ℕ) → block_free s' c ≡ (if b == c then true else block_free s c))
          × ((c : ℕ) → bblock b s.sb ≢ c → s'.blocks c ≡ s.blocks c)
          × HasRoom n s'.log)
unfolding bfree clear_block block_free
bfree-Freed n b s room loaded = elim (Bool-cases (is_free (s.blocks (bblock b s.sb)) (b % 4096))) [
  | inl free ↦ inl (free, step ∙ rw free refl)
  | inr used ↦
      let v = unmark (s.blocks (bblock b s.sb)) (b % 4096) in
      let (l, e, r) = write_block-HasRoom n (bblock b s.sb) v s room in
      inr (
        used,
        record s { blocks = update s.blocks (bblock b s.sb) v; log = l },
        step ∙ rw used e,
        marked,
        λ c p. ground (arith, p),
        r,
      )
]
  where
    step :
        bfree b s
        ≡ (if is_free (s.blocks (bblock b s.sb)) (b % 4096)
              then fail freeing_free
              else write_block (bblock b s.sb) (unmark (s.blocks (bblock b s.sb)) (b % 4096)))
            s
    step = bind-ok readsb (λ _. clear_block b) s loaded refl

    marked :
        (c : ℕ)
        → is_free
            (update s.blocks
              (bblock b s.sb)
              (unmark (s.blocks (bblock b s.sb)) (b % 4096))
              (bblock c s.sb))
            (c % 4096)
          ≡ (if b == c then true else is_free (s.blocks (bblock c s.sb)) (c % 4096))
    marked c = elim (Bool-cases (bblock b s.sb == bblock c s.sb)) [
      | inl same ↦
          let e : bblock b s.sb ≡ bblock c s.sb = ground (arith, same) in
          let bits : (b == c) ≡ (b % 4096 == c % 4096) = ground (arith, same) in
          rw (same, bits, e, unmark-is_free (s.blocks (bblock c s.sb)) (b % 4096) (c % 4096)) refl
      | inr other ↦ let ne : (b == c) ≡ false = ground (arith, other) in rw (other, ne) refl
    ]
