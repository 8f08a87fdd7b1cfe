-- ===== src/Fs/Files/Tests.antt =====
-- The theorems on `filewrite` on a file of 13 blocks, the last one behind its indirect block.
use tp2_ronaldo_joaopedro.Common.{
  ℕ, zero, suc, ◌+◌, ◌*◌, ◌<◌, true, false, none, [], ◌∷◌, length, ◌≡◌, ◌≢◌, ◌⊎◌, refl, arith, inl,
  inr, ◌==◌, ltb, if◌then◌else◌, Bool-cases,
}
use tp2_ronaldo_joaopedro.Log.{maxopblocks}
use tp2_ronaldo_joaopedro.Fs.{Inode, Fs, ok, hang, Bytes}
use tp2_ronaldo_joaopedro.Fs.Contents.{writei}
use tp2_ronaldo_joaopedro.Fs.Contents.Mapped.{IsMapped, block_of}
use tp2_ronaldo_joaopedro.Fs.Contents.Writes.{IsApart}
use tp2_ronaldo_joaopedro.Fs.Files.{chunk_max, filewrite}
use tp2_ronaldo_joaopedro.Fs.Files.Ends.{filewrite_ends}
use tp2_ronaldo_joaopedro.Fs.Files.Chunks.{writei-exceeds}

abbrev big_inode : Inode
big_inode = record {
  dev = 1;
  inum = 2;
  ref = 1;
  locked = true;
  valid = true;
  type = 2;
  major = 0;
  minor = 0;
  nlink = 1;
  size = 6656;
  addrs = 100 ∷ 101 ∷ 102 ∷ 103 ∷ 104 ∷ 105 ∷ 106 ∷ 107 ∷ 108 ∷ 109 ∷ 110 ∷ 111 ∷ 112 ∷ [];
}

abbrev indirect_block : Bytes
indirect_block k = if k == 0 then 120 else 0

abbrev disk : Fs
disk = record {
  blocks = λ b. if b == 112 then indirect_block else λ _. 7;
  log = record { start = 2; size = 30; outstanding = 1; committing = false; lh = [] };
  sb = record {
    size = 1000;
    nblocks = 941;
    ninodes = 200;
    nlog = 30;
    logstart = 2;
    inodestart = 32;
    bmapstart = 58;
  };
  inodes = λ _. big_inode;
  devsw = λ _. record { read = none; write = none };
}

direct_blocks : (n : ℕ) → ltb n 12 ≡ true → block_of disk 0 n ≡ 100 + n
direct_blocks zero p = refl
direct_blocks (suc zero) p = refl
direct_blocks (suc (suc zero)) p = refl
direct_blocks (suc (suc (suc zero))) p = refl
direct_blocks (suc (suc (suc (suc zero)))) p = refl
direct_blocks (suc (suc (suc (suc (suc zero))))) p = refl
direct_blocks (suc (suc (suc (suc (suc (suc zero)))))) p = refl
direct_blocks (suc (suc (suc (suc (suc (suc (suc zero))))))) p = refl
direct_blocks (suc (suc (suc (suc (suc (suc (suc (suc zero)))))))) p = refl
direct_blocks (suc (suc (suc (suc (suc (suc (suc (suc (suc zero))))))))) p = refl
direct_blocks (suc (suc (suc (suc (suc (suc (suc (suc (suc (suc zero)))))))))) p = refl
direct_blocks (suc (suc (suc (suc (suc (suc (suc (suc (suc (suc (suc zero))))))))))) p = refl
direct_blocks (suc (suc (suc (suc (suc (suc (suc (suc (suc (suc (suc (suc n)))))))))))) p =
    absurd (ground (arith, p))

last_block : (n : ℕ) → n ≡ 12 → block_of disk 0 n ≡ 120
last_block n e = rw e refl

place :
    (n : ℕ)
    → n * 512 < 6656
    → ((n < 12) × (block_of disk 0 n ≡ 100 + n)) ⊎ ((n ≡ 12) × (block_of disk 0 n ≡ 120))
place n lt = elim (Bool-cases (ltb n 12)) [
  | inl near ↦ inl (ground (arith, near), direct_blocks n near)
  | inr far ↦ let e : n ≡ 12 = ground (arith, far, lt) in inr (e, last_block n e)
]

disk-IsMapped : IsMapped disk 0 6656
disk-IsMapped = record {
  in_range = omega arith;
  block =
      λ n lt. elim (place n lt) [ inl (_, e) ↦ omega (arith, e) | inr (_, e) ↦ omega (arith, e) ];
  indirect = λ p. omega arith;
}

disk-IsApart : IsApart disk 0 6656
disk-IsApart = record {
  once = λ m n p q e. ground (arith, place m p, place n q, e);
  indirect = λ n p. elim (place n p) [
    | inl (lt, e) ↦ omega (arith, e, lt)
    | inr (_, e) ↦ omega (arith, e)
  ];
}

writei-exceeds_example :
    (s' : Fs) × (writei 0 (λ k. k) 0 chunk_max disk ≡ ok chunk_max s')
    × (0 + maxopblocks < length s'.log.lh)
writei-exceeds_example =
    writei-exceeds 0 0 (λ k. k) disk (omega arith) disk-IsMapped disk-IsApart refl (omega arith)
      (record { inside = omega arith; in_log = omega arith; on_disk = omega arith }) (λ m p q. refl)

filewrite_ends_example :
    filewrite (record { readable = false; writable = true; ip = 0; off = 0 }) (λ k. k) 20000 disk
    ≢ hang
filewrite_ends_example =
    filewrite_ends (record { readable = false; writable = true; ip = 0; off = 0 }) (λ k. k) 20000
      disk
