-- ===== src/Fs/Contents/Mapped.antt =====
-- xv6/fs.c: the bytes of a file, seen through the block map of its inode.
use tp2_ronaldo_joaopedro.Common.{
  ℕ, zero, suc, ◌+◌, ◌-◌, ◌*◌, ◌/◌, ◌%◌, ◌<◌, ◌≤◌, true, List, [], ◌∷◌, ◌++◌, get_or, ◌≡◌, ◌≢◌,
  refl, ap, ap₂, sym, ◌∙◌, inl, inr, arith, ==_ne, ltb, if◌then◌else◌, Bool-cases,
}
use tp2_ronaldo_joaopedro.Fs.{Fs, ok, get32}
use tp2_ronaldo_joaopedro.Fs.Room.{bind-ok}
use tp2_ronaldo_joaopedro.Fs.Contents.{own_block, indirect_block, bmap, slice}

-- The block of the `bn`th block of a file, 0 if it has none.
abbrev pub block_of : Fs → ℕ → ℕ → ℕ
block_of s i bn =
    if ltb bn 12
    then get_or (s.inodes i).addrs bn 0
    else get32 (s.blocks (get_or (s.inodes i).addrs 12 0)) (4 * (bn - 12))

-- Each block of the first `size` bytes is there.
pub record IsMapped (s : Fs) (i size : ℕ) : Type 0 where
  pub in_range : size ≤ 140 * 512
  pub block : (bn : ℕ) → bn * 512 < size → block_of s i bn ≢ 0
  pub indirect : 12 * 512 < size → get_or (s.inodes i).addrs 12 0 ≢ 0

abbrev pub file_byte : Fs → ℕ → ℕ → ℕ
file_byte s i o = s.blocks (block_of s i (o / 512)) (o % 512)

abbrev pub contents : Fs → ℕ → ℕ → ℕ → List ℕ
contents s i off zero = []
contents s i off (suc n) = file_byte s i off ∷ contents s i (off + 1) n

own_block-mapped :
    (s : Fs) (i k : ℕ)
    → get_or (s.inodes i).addrs k 0 ≢ 0
    → own_block i k s ≡ ok (get_or (s.inodes i).addrs k 0) s
unfolding own_block
own_block-mapped s i k h = rw (==_ne (get_or (s.inodes i).addrs k 0) 0 h) refl

indirect_block-mapped :
    (s : Fs) (addr k : ℕ)
    → get32 (s.blocks addr) (4 * k) ≢ 0
    → indirect_block addr k s ≡ ok (get32 (s.blocks addr) (4 * k)) s
unfolding indirect_block
indirect_block-mapped s addr k h = rw (==_ne (get32 (s.blocks addr) (4 * k)) 0 h) refl

-- bmap of a block that is there finds it and changes nothing.
pub bmap-IsMapped :
    (s : Fs) (i size bn : ℕ)
    → IsMapped s i size
    → bn * 512 < size
    → bmap i bn s ≡ ok (block_of s i bn) s
unfolding bmap
bmap-IsMapped s i size bn h lt = elim (Bool-cases (ltb bn 12)) [
  | inl direct ↦
      let there : get_or (s.inodes i).addrs bn 0 ≢ 0 = rw direct at (h.block bn lt) in
      rw direct (own_block-mapped s i bn there)
  | inr far ↦
      let there : get32 (s.blocks (get_or (s.inodes i).addrs 12 0)) (4 * (bn - 12)) ≢ 0 =
        rw far at (h.block bn lt) in
      let near : ltb (bn - 12) 128 ≡ true = ground (arith, far, h.in_range) in
      rw (far, near)
        (bind-ok (own_block i 12) (λ addr. indirect_block addr (bn - 12)) s
          (own_block-mapped s i 12 (h.indirect (ground (arith, far, lt))))
          (indirect_block-mapped s (get_or (s.inodes i).addrs 12 0) (bn - 12) there))
]

pub contents-append :
    (s : Fs) (i off a b : ℕ)
    → contents s i off (a + b) ≡ contents s i off a ++ contents s i (off + a) b
contents-append s i off zero b =
    let same : 0 + b ≡ b = omega arith in
    let here : off ≡ off + 0 = omega arith in
    ap (contents s i off) same ∙ ap (λ x. contents s i x b) here
contents-append s i off (suc a) b =
    let next : suc a + b ≡ suc (a + b) = omega arith in
    let past : off + 1 + a ≡ off + suc a = omega arith in
    ap (contents s i off) next
    ∙ ap (λ l. file_byte s i off ∷ l)
        (contents-append s i (off + 1) a b
          ∙ ap (λ x. contents s i (off + 1) a ++ contents s i x b) past)

in_block :
    (s : Fs) (i off bn o : ℕ)
    → off / 512 ≡ bn
    → off % 512 ≡ o
    → s.blocks (block_of s i bn) o ≡ file_byte s i off
in_block s i off bn o e f = ap₂ (λ x y. s.blocks (block_of s i x) y) (sym e) (sym f)

-- The part of a file within one block.
pub slice-contents :
    (s : Fs) (i off m bn o : ℕ)
    → off / 512 ≡ bn
    → off % 512 ≡ o
    → o + m ≤ 512
    → slice (s.blocks (block_of s i bn)) o m ≡ contents s i off m
slice-contents s i off zero bn o e f h = refl
slice-contents s i off (suc zero) bn o e f h = ap (λ y. y ∷ []) (in_block s i off bn o e f)
slice-contents s i off (suc (suc m)) bn o e f h =
    ap₂ (λ y ys. y ∷ ys) (in_block s i off bn o e f)
      (slice-contents s i (off + 1) (suc m) bn (o + 1) (omega (arith, e, f, h))
        (omega (arith, e, f, h)) (omega (arith, h)))
