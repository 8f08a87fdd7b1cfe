-- ===== src/Fs/Files/Chunks.antt =====
-- xv6/file.c: the chunks of `filewrite`, and how many blocks of the log they take.
use tp2_ronaldo_joaopedro.Common.{
  ℕ, zero, suc, ◌+◌, ◌-◌, ◌*◌, ◌/◌, ◌%◌, ◌<◌, ◌≤◌, true, false, ◌&&◌, List, [], ◌∷◌, ◌++◌, length,
  length-append, ◌≡◌, ◌≢◌, refl, ap, ◌∙◌, inl, inr, arith, ◌==◌, ==_ne, ltb, update, Bool-cases,
}
use tp2_ronaldo_joaopedro.Machine.{add32}
use tp2_ronaldo_joaopedro.Log.{Log, log_write, logged, member, maxopblocks}
use tp2_ronaldo_joaopedro.Fs.{Fs, ok, Bytes, write_block}
use tp2_ronaldo_joaopedro.Fs.Room.{HasRoom, bind-ok}
use tp2_ronaldo_joaopedro.Fs.Contents.{bmap, piece, put_bytes, write_from, writei}
use tp2_ronaldo_joaopedro.Fs.Contents.Mapped.{IsMapped, block_of, bmap-IsMapped}
use tp2_ronaldo_joaopedro.Fs.Contents.Writes.{
  IsApart, with_blocks, same_map, keeps-IsMapped, keeps-IsApart, one_piece, one_piece-KeepsOthers,
}
use tp2_ronaldo_joaopedro.Fs.Files.{chunk_max}

-- A block that is not in the log takes a place there.
log_write-new :
    (n b : ℕ) (l : Log)
    → HasRoom (suc n) l
    → member b l.lh ≡ false
    → (log_write l b ≡ logged (record l { lh = l.lh ++ b ∷ [] }))
      × HasRoom n (record l { lh = l.lh ++ b ∷ [] })
unfolding log_write
log_write-new n b l h absent = (
  ground (arith, absent, h.inside, h.in_log, h.on_disk),
  record {
    inside = h.inside;
    in_log = omega (arith, h.in_log, length-append l.lh (b ∷ []));
    on_disk = omega (arith, h.on_disk, length-append l.lh (b ∷ []));
  },
)

write_block-new :
    (n b : ℕ) (v : Bytes) (s : Fs)
    → HasRoom (suc n) s.log
    → member b s.log.lh ≡ false
    → (write_block b v s
        ≡ ok tt (record s {
          blocks = update s.blocks b v;
          log = record s.log { lh = s.log.lh ++ b ∷ [] };
        }))
      × HasRoom n (record s.log { lh = s.log.lh ++ b ∷ [] })
unfolding write_block
write_block-new n b v s h absent = let (e, r) = log_write-new n b s.log h absent in (rw e refl, r)

member-append :
    (b x : ℕ) (xs : List ℕ)
    → member b xs ≡ false
    → (x == b) ≡ false
    → member b (xs ++ x ∷ []) ≡ false
member-append b x [] h e = ground (arith, e)
member-append b x (y ∷ ys) h e = elim (Bool-cases (y == b)) [
  | inl same ↦ absurd (ground (arith, h, same))
  | inr other ↦ rw other (member-append b x ys (rw other at h) e)
]

-- The blocks of a file from `bn` on are not in the log.
abbrev IsUnlogged : Fs → ℕ → ℕ → ℕ → Type 0
IsUnlogged s i size bn =
    (m : ℕ) → bn ≤ m → m * 512 < size → member (block_of s i m) s.log.lh ≡ false

write_from-logged :
    (k fuel i size tot off n : ℕ) (src : Bytes) (s : Fs)
    → IsMapped s i size
    → IsApart s i size
    → n < fuel
    → n ≡ 512 * k
    → off % 512 ≡ 0
    → off + n ≤ size
    → HasRoom k s.log
    → IsUnlogged s i size (off / 512)
    → (bl : ℕ → Bytes) × (l : Log) × (write_from fuel i src tot off n s
        ≡ ok tt (with_blocks s bl l))
      × (length l.lh ≡ length s.log.lh + k)
unfolding write_from
write_from-logged k zero i size tot off n src s h a f whole aligned b r u = absurd (omega arith)
write_from-logged zero (suc fuel) i size tot off n src s h a f whole aligned b r u =
    let done : ltb 0 n ≡ false = ground (arith, whole) in
    (s.blocks, s.log, rw done refl, omega arith)
write_from-logged (suc k) (suc fuel) i size tot off n src s h a f whole aligned b r u =
    let m = piece off n in
    let bn = off / 512 in
    let more : ltb 0 n ≡ true = ground (arith, whole) in
    let full : m ≡ 512 = ground (arith, whole, aligned) in
    let some_bytes : 0 < m = ground (arith, full) in
    let fits : off % 512 + m ≤ 512 = ground (arith, full, aligned) in
    let inside : off + m ≤ size = ground (arith, b, whole, full) in
    let lt : bn * 512 < size = ground (arith, inside, some_bytes) in
    let next : (off + m) / 512 ≡ bn + 1 = ground (arith, full) in
    let bl1 = one_piece s i size h a src tot off m fits inside some_bytes in
    let keeps1 = one_piece-KeepsOthers s i size h a src tot off m fits inside some_bytes in
    let v : Bytes = put_bytes (s.blocks (block_of s i bn)) (off % 512) src tot m in
    let (e1, r1) = write_block-new k (block_of s i bn) v s r (u bn (omega arith) lt) in
    let l1 : Log = record s.log { lh = s.log.lh ++ block_of s i bn ∷ [] } in
    let u1 : IsUnlogged (with_blocks s bl1 l1) i size ((off + m) / 512) = λ j p q.
      ap (λ c. member c l1.lh) (same_map s i size bl1 l1 a keeps1 j)
      ∙ member-append (block_of s i j) (block_of s i bn) s.log.lh (u j (omega (arith, p, next)) q) (
          ==_ne (block_of s i bn) (block_of s i j)
            (λ e. absurd (omega (arith, p, next, a.once bn j lt q e)))) in
    let (bl2, l2, e2, len) =
      write_from-logged k fuel i size (tot + m) (off + m) (n - m) src (with_blocks s bl1 l1)
        (keeps-IsMapped s i size bl1 l1 a keeps1 h) (keeps-IsApart s i size bl1 l1 a keeps1)
        (omega (arith, f, some_bytes, whole)) (omega (arith, whole, full))
        (omega (arith, full, aligned)) (omega (arith, b, whole, full)) r1 u1 in
    (
      bl2,
      l2,
      rw more (
          bind-ok (bmap i bn) _ s (bmap-IsMapped s i size bn h lt)
            (bind-ok (write_block (block_of s i bn) v) _ s e1 e2)),
      len ∙ omega (arith, length-append s.log.lh (block_of s i bn ∷ [])),
    )

writei-logged :
    (k i off n : ℕ) (src : Bytes) (s : Fs)
    → (s.inodes i).type ≢ 3
    → IsMapped s i (s.inodes i).size
    → IsApart s i (s.inodes i).size
    → n ≡ 512 * k
    → off % 512 ≡ 0
    → off + n ≤ (s.inodes i).size
    → HasRoom k s.log
    → IsUnlogged s i (s.inodes i).size (off / 512)
    → (s' : Fs) × (writei i src off n s ≡ ok n s') × (length s'.log.lh ≡ length s.log.lh + k)
unfolding writei
writei-logged k i off n src s file h a whole aligned b r u =
    let (bl, l, e, len) =
      write_from-logged k (suc n) i (s.inodes i).size 0 off n src s h a (omega arith) whole aligned
        b r u in
    (
      with_blocks s bl l,
      rw (==_ne (s.inodes i).type 3 file, in_file, no_wrap, not_too_big)
          (bind-ok (write_from (suc n) i src 0 off n) _ s e (rw no_growth refl)),
      len,
    )
  where
    in_file : ltb (s.inodes i).size off ≡ false
    in_file = ground (arith, b)

    no_wrap : ltb (add32 off n) off ≡ false
    no_wrap = ground (arith, b, h.in_range)

    not_too_big : ltb (140 * 512) (off + n) ≡ false
    not_too_big = ground (arith, b, h.in_range)

    no_growth : (ltb 0 n && ltb (s.inodes i).size (off + n)) ≡ false
    no_growth = ground (arith, b)

-- A writei of as many bytes as `filewrite` puts in one transaction, at the start of a block of a file
-- whose blocks are all there, lie apart and are not in the log, with room in the log, puts more
-- blocks into the log than `begin_op` sets aside for one operation.
pub writei-exceeds :
    (i off : ℕ) (src : Bytes) (s : Fs)
    → (s.inodes i).type ≢ 3
    → IsMapped s i (s.inodes i).size
    → IsApart s i (s.inodes i).size
    → off % 512 ≡ 0
    → off + chunk_max ≤ (s.inodes i).size
    → HasRoom 13 s.log
    → IsUnlogged s i (s.inodes i).size (off / 512)
    → (s' : Fs) × (writei i src off chunk_max s ≡ ok chunk_max s')
      × (length s.log.lh + maxopblocks < length s'.log.lh)
writei-exceeds i off src s file h a aligned b r u =
    let (s', e, len) = writei-logged 13 i off chunk_max src s file h a refl aligned b r u in
    (s', e, omega (arith, len))
