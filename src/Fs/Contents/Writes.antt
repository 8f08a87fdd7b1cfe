-- ===== src/Fs/Contents/Writes.antt =====
-- xv6/fs.c: `writei` puts bytes into the blocks of the file.
use tp2_ronaldo_joaopedro.Common.{
  ℕ, zero, suc, ◌+◌, ◌-◌, ◌*◌, ◌/◌, ◌%◌, ◌^◌, ◌<◌, ◌≤◌, min, true, false, ◌&&◌, ◌∷◌, get_or, ◌≡◌,
  ◌≢◌, ◌⊎◌, refl, ap, ap₂, sym, ◌∙◌, inl, inr, arith, ◌==◌, ==_refl, ==_ne, ltb, leb, update,
  if◌then◌else◌, Bool-cases,
}
use tp2_ronaldo_joaopedro.Log.{Log}
use tp2_ronaldo_joaopedro.Machine.{add32}
use tp2_ronaldo_joaopedro.Fs.{Fs, ok, Bytes, get32, write_block}
use tp2_ronaldo_joaopedro.Fs.Room.{
  bind-ok, HasRoom, HasRoom-weaken, HasRoom-at, write_block-HasRoom,
}
use tp2_ronaldo_joaopedro.Fs.Contents.{bmap, piece, put_bytes, write_from, writei, readi, slice}
use tp2_ronaldo_joaopedro.Fs.Contents.Reads.{readi-contents}
use tp2_ronaldo_joaopedro.Fs.Contents.Mapped.{
  IsMapped, block_of, file_byte, contents, bmap-IsMapped,
}

-- The first `size` bytes of a file lie in blocks of their own, which are not the file's indirect block.
pub record IsApart (s : Fs) (i size : ℕ) : Type 0 where
  pub once : (m n : ℕ) → m * 512 < size → n * 512 < size → block_of s i m ≡ block_of s i n → m ≡ n
  pub indirect : (n : ℕ) → n * 512 < size → block_of s i n ≢ get_or (s.inodes i).addrs 12 0

abbrev pub with_blocks : Fs → (ℕ → Bytes) → Log → Fs
with_blocks s bl l = record s { blocks = bl; log = l }

-- Only blocks of the file have changed.
abbrev pub KeepsOthers : Fs → ℕ → ℕ → (ℕ → Bytes) → Type 0
KeepsOthers s i size bl =
    (c : ℕ) → ((n : ℕ) → n * 512 < size → block_of s i n ≢ c) → bl c ≡ s.blocks c

module _ (s : Fs) (i size : ℕ) (bl : ℕ → Bytes) (l : Log) (apart : IsApart s i size)
    (keeps : KeepsOthers s i size bl) where
  -- The block map is as before.
  pub same_map : (n : ℕ) → block_of (with_blocks s bl l) i n ≡ block_of s i n
  same_map n = elim (Bool-cases (ltb n 12)) [
    | inl direct ↦ rw direct refl
    | inr far ↦
        rw far
          (ap (λ v. get32 v (4 * (n - 12))) (keeps (get_or (s.inodes i).addrs 12 0) apart.indirect))
  ]

  pub keeps-IsMapped : IsMapped s i size → IsMapped (with_blocks s bl l) i size
  keeps-IsMapped h = record {
    in_range = h.in_range;
    block = λ n p e. h.block n p (sym (same_map n) ∙ e);
    indirect = h.indirect;
  }

  pub keeps-IsApart : IsApart (with_blocks s bl l) i size
  keeps-IsApart = record {
    once = λ m n p q e. apart.once m n p q (sym (same_map m) ∙ e ∙ same_map n);
    indirect = λ n p e. apart.indirect n p (sym (same_map n) ∙ e);
  }

-- The byte at `o` after a write of `n` bytes at `off`.
abbrev pub overwritten : (ℕ → ℕ) → Bytes → ℕ → ℕ → ℕ → ℕ → ℕ
overwritten f src tot off n o = if leb off o && ltb o (off + n) then src (tot + (o - off)) else f o

module _ (s : Fs) (i size : ℕ) (mapped : IsMapped s i size) (apart : IsApart s i size) (src : Bytes)
    (tot off m : ℕ) (fits : off % 512 + m ≤ 512) (inside : off + m ≤ size)
    (some_bytes : 0 < m) where
  abbrev pub one_piece : ℕ → Bytes
  one_piece =
      update s.blocks (block_of s i (off / 512))
        (put_bytes (s.blocks (block_of s i (off / 512))) (off % 512) src tot m)

  pub one_piece-KeepsOthers : KeepsOthers s i size one_piece
  one_piece-KeepsOthers c h =
      rw (==_ne (block_of s i (off / 512)) c (h (off / 512) (omega arith))) refl

  one_piece-overwritten :
      (l : Log) (o : ℕ)
      → o < size
      → file_byte (with_blocks s one_piece l) i o ≡ overwritten (file_byte s i) src tot off m o
  one_piece-overwritten l o p =
      ap (λ b. one_piece b (o % 512))
        (same_map s i size one_piece l apart one_piece-KeepsOthers (o / 512))
      ∙ elim (Bool-cases (off / 512 == o / 512)) [
        | inl here ↦ same_block (ground (arith, here))
        | inr there ↦
            let ne : off / 512 ≢ o / 512 = λ e. absurd (ground (arith, there, e)) in
            let apart_blocks : block_of s i (off / 512) ≢ block_of s i (o / 512) =
              λ e. ne (apart.once (off / 512) (o / 512) (omega arith) (omega arith) e) in
            let outside : (leb off o && ltb o (off + m)) ≡ false = ground (arith, ne, fits) in
            rw (==_ne (block_of s i (off / 512)) (block_of s i (o / 512)) apart_blocks, outside)
              refl
      ]
    where
      same_block :
          off / 512 ≡ o / 512
          → one_piece (block_of s i (o / 512)) (o % 512)
            ≡ overwritten (file_byte s i) src tot off m o
      same_block e =
          let hit : (block_of s i (off / 512) == block_of s i (o / 512)) ≡ true =
            ap (λ x. block_of s i (off / 512) == block_of s i x) (sym e)
            ∙ ==_refl (block_of s i (off / 512)) in
          let test : (leb (off % 512) (o % 512) && ltb (o % 512) (off % 512 + m))
              ≡ (leb off o && ltb o (off + m)) =
            ground (arith, e) in
          rw (hit, test)
            (elim (Bool-cases (leb off o && ltb o (off + m))) [
              | inl in_piece ↦
                  let place : o % 512 - off % 512 ≡ o - off = ground (arith, e, in_piece) in
                  rw (in_piece, place) refl
              | inr out ↦ rw (out, e) refl
            ])

-- What the loop of `writei` comes to: `n` bytes from `tot` on of the source lie at `off`.
abbrev pub Written : Fs → ℕ → ℕ → (ℕ → Bytes) → Log → ℕ → Bytes → ℕ → ℕ → ℕ → Type 0
Written s i size bl l room src tot off n =
    KeepsOthers s i size bl
    × ((o : ℕ)
        → o < size
        → file_byte (with_blocks s bl l) i o ≡ overwritten (file_byte s i) src tot off n o)
    × HasRoom room l

-- Two writes in a row.
overwritten-twice :
    (f g h : ℕ → ℕ) (src : Bytes) (tot off m n o : ℕ)
    → m ≤ n
    → g o ≡ overwritten f src tot off m o
    → h o ≡ overwritten g src (tot + m) (off + m) (n - m) o
    → h o ≡ overwritten f src tot off n o
overwritten-twice f g h src tot off m n o le e1 e2 = e2 ∙ elim (Bool-cases (ltb o (off + m))) [
  | inl early ↦
      let past : leb (off + m) o ≡ false = ground (arith, early) in
      let whole : ltb o (off + n) ≡ true = ground (arith, early, le) in
      rw (past, whole) (e1 ∙ rw early refl)
  | inr late ↦
      let start : leb off o ≡ true = ground (arith, late) in
      let start' : leb (off + m) o ≡ true = ground (arith, late) in
      let finish : ltb o (off + m + (n - m)) ≡ ltb o (off + n) = ap (ltb o) (omega (arith, le)) in
      let place : tot + m + (o - (off + m)) ≡ tot + (o - off) = ground (arith, late) in
      rw (start, start', finish, place)
        (elim (Bool-cases (ltb o (off + n))) [
          | inl inside ↦ rw inside refl
          | inr after ↦ rw after (e1 ∙ rw (start, late) refl)
        ])
]

nothing_written : (f : ℕ → ℕ) (src : Bytes) (tot off o : ℕ) → f o ≡ overwritten f src tot off 0 o
nothing_written f src tot off o =
    let outside : (leb off o && ltb o (off + 0)) ≡ false = ground arith in rw outside refl

write_from-Written :
    (fuel k room i size tot off n : ℕ) (src : Bytes) (s : Fs)
    → IsMapped s i size
    → IsApart s i size
    → n < fuel
    → off + n ≤ size
    → (0 < n → off % 512 + n ≤ 512 * k)
    → HasRoom (k + room) s.log
    → (bl : ℕ → Bytes) × (l : Log) × (write_from fuel i src tot off n s
        ≡ ok tt (with_blocks s bl l))
      × Written s i size bl l room src tot off n
unfolding write_from
write_from-Written zero k room i size tot off n src s h a f b pieces r = absurd (omega arith)
write_from-Written (suc fuel) zero room i size tot off zero src s h a f b pieces r = (
  s.blocks,
  s.log,
  refl,
  (
    λ c q. refl,
    λ o p. nothing_written (file_byte s i) src tot off o,
    HasRoom-weaken 0 room s.log r,
  ),
)
write_from-Written (suc fuel) zero room i size tot off (suc n) src s h a f b pieces r =
    absurd (omega (arith, pieces (omega arith)))
write_from-Written (suc fuel) (suc k) room i size tot off n src s h a f b pieces r =
    elim (Bool-cases (ltb 0 n)) [
      | inr done ↦
          let e : n ≡ 0 = ground (arith, done) in
          (
            s.blocks,
            s.log,
            rw done refl,
            (
              λ c q. refl,
              λ o p. rw e (nothing_written (file_byte s i) src tot off o),
              HasRoom-weaken (suc k) room s.log r,
            ),
          )
      | inl more ↦
          let m = piece off n in
          let bn = off / 512 in
          let some_left : 0 < n = ground (arith, more) in
          let some_bytes : 0 < m = ground (arith, more) in
          let fits : off % 512 + m ≤ 512 = ground arith in
          let inside : off + m ≤ size = ground (arith, b) in
          let bl1 = one_piece s i size h a src tot off m fits inside some_bytes in
          let v : Bytes = put_bytes (s.blocks (block_of s i bn)) (off % 512) src tot m in
          let (l1, e1, r1) =
            write_block-HasRoom (k + room) (block_of s i bn) v s
              (HasRoom-at (suc k + room) (suc (k + room)) s.log (omega arith) r) in
          let s1 : Fs = with_blocks s bl1 l1 in
          let keeps1 = one_piece-KeepsOthers s i size h a src tot off m fits inside some_bytes in
          let (bl2, l2, e2, (keeps2, bytes2, r2)) =
            write_from-Written fuel k room i size (tot + m) (off + m) (n - m) src s1
              (keeps-IsMapped s i size bl1 l1 a keeps1 h) (keeps-IsApart s i size bl1 l1 a keeps1)
              (ground (arith, more, f)) (ground (arith, b))
              (λ left. ground (arith, left, pieces some_left)) r1 in
          (
            bl2,
            l2,
            rw more (
                bind-ok (bmap i bn) _ s (bmap-IsMapped s i size bn h (ground (arith, more, b)))
                  (bind-ok (write_block (block_of s i bn) v) _ s e1 e2)),
            (
              λ c q.
                  keeps2 c (λ n' p e. q n' p (sym (same_map s i size bl1 l1 a keeps1 n') ∙ e))
                  ∙ keeps1 c q,
              λ o p.
                  overwritten-twice (file_byte s i) (file_byte s1 i)
                    (file_byte (with_blocks s bl2 l2) i) src tot off m n o (ground arith)
                    (one_piece-overwritten s i size h a src tot off m fits inside some_bytes l1 o p)
                    (bytes2 o p),
              r2,
            ),
          )
    ]

contents-slice :
    (s : Fs) (i off t n : ℕ) (src : Bytes)
    → ((j : ℕ) → j < n → file_byte s i (off + j) ≡ src (t + j))
    → contents s i off n ≡ slice src t n
contents-slice s i off t zero src h = refl
contents-slice s i off t (suc n) src h =
    ap₂ (λ y ys. y ∷ ys)
      (ap (file_byte s i) (omega arith) ∙ h 0 (omega arith) ∙ ap src (omega arith))
      (contents-slice s i (off + 1) (t + 1) n src
        (λ j p. ap (file_byte s i) (omega arith) ∙ h (j + 1) (omega arith) ∙ ap src (omega arith)))

-- writei of `n` bytes within a file that is no device, whose blocks are all there and lie apart, with
-- room in the log for the blocks that it touches, returns `n`; a readi of the same place then
-- returns these bytes, every other byte of the file is as before, and so is every block that is not
-- the file's.
pub writei-readi :
    (k room i off n : ℕ) (src : Bytes) (s : Fs)
    → (s.inodes i).type ≢ 3
    → IsMapped s i (s.inodes i).size
    → IsApart s i (s.inodes i).size
    → off + n ≤ (s.inodes i).size
    → off % 512 + n ≤ 512 * k
    → HasRoom (k + room) s.log
    → (s' : Fs) × (writei i src off n s ≡ ok n s')
      × (readi i off n s' ≡ ok (n, slice src 0 n) s')
      × ((o : ℕ)
          → o < (s.inodes i).size
          → (o < off) ⊎ (off + n ≤ o)
          → file_byte s' i o ≡ file_byte s i o)
      × KeepsOthers s i (s.inodes i).size s'.blocks
      × HasRoom room s'.log
unfolding writei
writei-readi k room i off n src s file h a b pieces r =
    let size = (s.inodes i).size in
    let (bl, l, e, (keeps, bytes, r')) =
      write_from-Written (suc n) k room i size 0 off n src s h a (omega arith) b (λ _. pieces) r in
    let s' : Fs = with_blocks s bl l in
    (
      s',
      rw (==_ne (s.inodes i).type 3 file, in_file, no_wrap, not_too_big)
          (bind-ok (write_from (suc n) i src 0 off n) _ s e (rw no_growth refl)),
      readi-contents i off n s' file (keeps-IsMapped s i size bl l a keeps h)
            (omega (arith, h.in_range)) (omega (arith, h.in_range))
          ∙ rw (in_file, no_wrap', as_many)
              (ap (λ bs. ok (n, bs) s')
                (contents-slice s' i off 0 n src
                  (λ j p. bytes (off + j) (omega arith) ∙ written j p))),
      λ o p q. bytes o p ∙ rw (outside o q) refl,
      keeps,
      r',
    )
  where
    in_file : ltb (s.inodes i).size off ≡ false
    in_file = ground (arith, b)

    no_wrap : ltb (add32 off n) off ≡ false
    no_wrap = ground (arith, b, h.in_range)

    no_wrap' : ltb (2 ^ 32 - 1) (off + n) ≡ false
    no_wrap' = ground (arith, b, h.in_range)

    not_too_big : ltb (140 * 512) (off + n) ≡ false
    not_too_big = ground (arith, b, h.in_range)

    no_growth : (ltb 0 n && ltb (s.inodes i).size (off + n)) ≡ false
    no_growth = ground (arith, b)

    as_many : min n ((s.inodes i).size - off) ≡ n
    as_many = omega (arith, b)

    written : (j : ℕ) → j < n → overwritten (file_byte s i) src 0 off n (off + j) ≡ src (0 + j)
    written j p =
        let inside : (leb off (off + j) && ltb (off + j) (off + n)) ≡ true = ground (arith, p) in
        let place : 0 + (off + j - off) ≡ 0 + j = omega arith in rw (inside, place) refl

    outside : (o : ℕ) → (o < off) ⊎ (off + n ≤ o) → (leb off o && ltb o (off + n)) ≡ false
    outside o q = ground (arith, q)
