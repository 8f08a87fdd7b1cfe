-- ===== src/Fs/Inodes/Disk.antt =====
-- xv6/fs.c: inodes as they are written to the disk and read from it.
use tp2_ronaldo_joaopedro.Common.{
  ℕ, suc, ◌+◌, ◌*◌, ◌<◌, ◌≤◌, true, false, List, [], ◌∷◌, length, All, ◌≡◌, ◌≢◌, ◌⊎◌, refl, sym, ap,
  ap₂, ◌∙◌, inl, inr, arith, update, Bool-cases, ◌==◌, ==_refl, ==_ne,
}
use tp2_ronaldo_joaopedro.Fs.Room.{HasRoom, write_block-HasRoom}
use tp2_ronaldo_joaopedro.Fs.{
  Inode, Fs, ok, Bytes, get16, put16, get32, put32, get_words, put_words,
}
use tp2_ronaldo_joaopedro.Fs.Inodes.{encode, decode, iupdate, read_inode, iblock, dinode_at}

get16-put16 : (v : Bytes) (o x : ℕ) → x < 65536 → get16 (put16 v o x) o ≡ x
get16-put16 v o x h = ground (arith, h)

put32-outside : (v : Bytes) (o x k : ℕ) → (k < o) ⊎ (o + 4 ≤ k) → put32 v o x k ≡ v k
put32-outside v o x k h = ground (arith, h)

get32-put32 : (v : Bytes) (o x : ℕ) → x < 4294967296 → get32 (put32 v o x) o ≡ x
get32-put32 v o x h = ground (arith, h)

put_words-below : (v : Bytes) (o : ℕ) (xs : List ℕ) (k : ℕ) → k < o → put_words v o xs k ≡ v k
unfolding put_words
put_words-below v o [] k h = refl
put_words-below v o (x ∷ xs) k h =
    put_words-below (put32 v o x) (o + 4) xs k (omega arith) ∙ put32-outside v o x k (inl h)

get32-same : (v w : Bytes) (o : ℕ) → ((k : ℕ) → k < o + 4 → v k ≡ w k) → get32 v o ≡ get32 w o
get32-same v w o h = omega (
  arith,
  h o (omega arith),
  h (o + 1) (omega arith),
  h (o + 2) (omega arith),
  h (o + 2 + 1) (omega arith),
)

get_words-put_words :
    (v : Bytes) (o : ℕ) (xs : List ℕ)
    → All (λ x. x < 4294967296) xs
    → get_words (put_words v o xs) o (length xs) ≡ xs
unfolding get_words put_words
get_words-put_words v o [] h = refl
get_words-put_words v o (x ∷ xs) (h, hs) =
    ap₂ (λ y ys. y ∷ ys)
      (get32-same (put_words (put32 v o x) (o + 4) xs) (put32 v o x) o
          (λ k p. put_words-below (put32 v o x) (o + 4) xs k p)
        ∙ get32-put32 v o x h)
      (get_words-put_words (put32 v o x) (o + 4) xs hs)

-- Each field fits its place on the disk.
pub record IsStorable (ip : Inode) : Type 0 where
  pub type : ip.type < 65536
  pub major : ip.major < 65536
  pub minor : ip.minor < 65536
  pub nlink : ip.nlink < 65536
  pub size : ip.size < 4294967296
  pub count : length ip.addrs ≡ 13
  pub addrs : All (λ x. x < 4294967296) ip.addrs

-- The two copies of an inode agree on what is on the disk.
abbrev pub stored : Inode → Inode → Inode
stored old ip = record old {
  type = ip.type;
  major = ip.major;
  minor = ip.minor;
  nlink = ip.nlink;
  size = ip.size;
  addrs = ip.addrs;
  valid = true;
}

-- The fields before the block numbers.
abbrev put_head : Bytes → ℕ → Inode → Bytes
put_head v o ip =
    put32
      (put16 (put16 (put16 (put16 v o ip.type) (o + 2) ip.major) (o + 4) ip.minor) (o + 6) ip.nlink)
      (o + 8) ip.size

get16-same : (v w : Bytes) (o : ℕ) → v o ≡ w o → v (o + 1) ≡ w (o + 1) → get16 v o ≡ get16 w o
get16-same v w o p q = omega (arith, p, q)

head-get :
    (v : Bytes) (o : ℕ) (ip : Inode)
    → IsStorable ip
    → (get16 (put_head v o ip) o ≡ ip.type)
      × (get16 (put_head v o ip) (o + 2) ≡ ip.major)
      × (get16 (put_head v o ip) (o + 4) ≡ ip.minor)
      × (get16 (put_head v o ip) (o + 6) ≡ ip.nlink)
      × (get32 (put_head v o ip) (o + 8) ≡ ip.size)
head-get v o ip h = (
  ground (arith, h.type),
  ground (arith, h.major),
  ground (arith, h.minor),
  ground (arith, h.nlink),
  get32-put32
      (put16 (put16 (put16 (put16 v o ip.type) (o + 2) ip.major) (o + 4) ip.minor) (o + 6) ip.nlink)
      (o + 8) ip.size h.size,
)

pub decode-encode :
    (v : Bytes) (o : ℕ) (old ip : Inode)
    → IsStorable ip
    → decode (encode v o ip) o old ≡ stored old ip
unfolding decode encode
decode-encode v o old ip h =
    let w : Bytes = put_head v o ip in
    let below : (k : ℕ) → k < o + 12 → put_words w (o + 12) ip.addrs k ≡ w k =
      λ k p. put_words-below w (o + 12) ip.addrs k p in
    let g = head-get v o ip h in
    let e1 =
      get16-same (put_words w (o + 12) ip.addrs) w o (below o (omega arith))
        (below (o + 1) (omega arith))
      ∙ g.0 in
    let e2 =
      get16-same (put_words w (o + 12) ip.addrs) w (o + 2) (below (o + 2) (omega arith))
        (below (o + 2 + 1) (omega arith))
      ∙ g.1 in
    let e3 =
      get16-same (put_words w (o + 12) ip.addrs) w (o + 4) (below (o + 4) (omega arith))
        (below (o + 4 + 1) (omega arith))
      ∙ g.2 in
    let e4 =
      get16-same (put_words w (o + 12) ip.addrs) w (o + 6) (below (o + 6) (omega arith))
        (below (o + 6 + 1) (omega arith))
      ∙ g.3 in
    let e5 =
      get32-same (put_words w (o + 12) ip.addrs) w (o + 8) (λ k p. below k (omega (arith, p)))
      ∙ g.4 in
    let e6 : get_words (put_words w (o + 12) ip.addrs) (o + 12) 13 ≡ ip.addrs =
      ap (get_words (put_words w (o + 12) ip.addrs) (o + 12)) (sym h.count)
      ∙ get_words-put_words w (o + 12) ip.addrs h.addrs in
    λ i. record old {
      type = e1 i;
      major = e2 i;
      minor = e3 i;
      nlink = e4 i;
      size = e5 i;
      addrs = e6 i;
      valid = true;
    }

put_words-above :
    (v : Bytes) (o : ℕ) (xs : List ℕ) (k : ℕ) → o + 4 * length xs ≤ k → put_words v o xs k ≡ v k
unfolding put_words
put_words-above v o [] k h = refl
put_words-above v o (x ∷ xs) k h =
    put_words-above (put32 v o x) (o + 4) xs k (omega (arith, h))
    ∙ put32-outside v o x k (inr (omega (arith, h)))

put_head-outside :
    (v : Bytes) (o : ℕ) (ip : Inode) (k : ℕ) → (k < o) ⊎ (o + 64 ≤ k) → put_head v o ip k ≡ v k
put_head-outside v o ip k h =
    put32-outside
      (put16 (put16 (put16 (put16 v o ip.type) (o + 2) ip.major) (o + 4) ip.minor) (o + 6) ip.nlink)
      (o + 8) ip.size k (omega (arith, h))
    ∙ ground (arith, h)

encode-outside :
    (v : Bytes) (o : ℕ) (ip : Inode) (k : ℕ)
    → length ip.addrs ≡ 13
    → (k < o) ⊎ (o + 64 ≤ k)
    → encode v o ip k ≡ v k
unfolding encode
encode-outside v o ip k n h = by_side h ∙ put_head-outside v o ip k h
  where
    by_side :
        (k < o) ⊎ (o + 64 ≤ k) → put_words (put_head v o ip) (o + 12) ip.addrs k ≡ put_head v o ip k
    by_side (inl p) = put_words-below (put_head v o ip) (o + 12) ip.addrs k (omega arith)
    by_side (inr p) = put_words-above (put_head v o ip) (o + 12) ip.addrs k (omega (arith, n))

decode-type : (v : Bytes) (o : ℕ) (ip : Inode) → IsStorable ip → get16 (encode v o ip) o ≡ ip.type
unfolding encode
decode-type v o ip h =
    get16-same (put_words (put_head v o ip) (o + 12) ip.addrs) (put_head v o ip) o
      (put_words-below (put_head v o ip) (o + 12) ip.addrs o (omega arith))
      (put_words-below (put_head v o ip) (o + 12) ip.addrs (o + 1) (omega arith))
    ∙ (head-get v o ip h).0

read_inode-typed :
    (s : Fs) (j o : ℕ) (v : Bytes)
    → s.blocks (iblock (s.inodes j).inum s.sb) ≡ v
    → dinode_at (s.inodes j).inum ≡ o
    → get16 v o ≢ 0
    → read_inode j s ≡ ok tt (record s { inodes = update s.inodes j (decode v o (s.inodes j)) })
unfolding read_inode
read_inode-typed s j o v e d t =
    let typed : (get16 v o == 0) ≡ false = ==_ne (get16 v o) 0 t in rw (e, d, typed) refl

-- iupdate of an inode whose fields fit the disk, with room in the log for a block, writes only the 64
-- bytes of the inode in its block; a slot of the cache that then reads the same inode, as ilock
-- does, gets the fields as they were written, given that the type is not 0.
pub iupdate-read_inode :
    (n i j : ℕ) (s : Fs)
    → HasRoom (suc n) s.log
    → IsStorable (s.inodes i)
    → (s.inodes i).type ≢ 0
    → (s.inodes j).inum ≡ (s.inodes i).inum
    → (s' : Fs) × (iupdate i s ≡ ok tt s')
      × (read_inode j s'
          ≡ ok tt (record s' { inodes = update s.inodes j (stored (s.inodes j) (s.inodes i)) }))
      × ((b o : ℕ)
          → (b ≢ iblock (s.inodes i).inum s.sb)
            ⊎ ((o < dinode_at (s.inodes i).inum) ⊎ (dinode_at (s.inodes i).inum + 64 ≤ o))
          → s'.blocks b o ≡ s.blocks b o)
      × HasRoom n s'.log
unfolding iupdate
iupdate-read_inode n i j s room fits typed same =
    let b = iblock (s.inodes i).inum s.sb in
    let o = dinode_at (s.inodes i).inum in
    let v : Bytes = encode (s.blocks b) o (s.inodes i) in
    let (l, e, r) = write_block-HasRoom n b v s room in
    let s' : Fs = record s { blocks = update s.blocks b v; log = l } in
    let there : update s.blocks b v (iblock (s.inodes j).inum s.sb) ≡ v =
      ap (λ x. update s.blocks b v (iblock x s.sb)) same ∙ ground (arith, ==_refl b) in
    (
      s',
      e,
      read_inode-typed s' j o v there (ap dinode_at same)
            (λ z. typed (sym (decode-type (s.blocks b) o (s.inodes i) fits) ∙ z))
          ∙ ap (λ x. ok tt (record s' { inodes = update s.inodes j x }))
              (decode-encode (s.blocks b) o (s.inodes j) (s.inodes i) fits),
      outside b o,
      r,
    )
  where
    outside :
        (b o c k : ℕ)
        → (c ≢ b) ⊎ ((k < o) ⊎ (o + 64 ≤ k))
        → update s.blocks b (encode (s.blocks b) o (s.inodes i)) c k ≡ s.blocks c k
    outside b o c k h = elim (Bool-cases (b == c)) [
      | inl here ↦
          let e : b ≡ c = ground (arith, here) in
          rw here (
            encode-outside (s.blocks b) o (s.inodes i) k fits.count (by_place (sym e) h)
            ∙ ap (λ x. s.blocks x k) e)
      | inr there ↦ rw there refl
    ]
      where
        by_place : c ≡ b → (c ≢ b) ⊎ ((k < o) ⊎ (o + 64 ≤ k)) → (k < o) ⊎ (o + 64 ≤ k)
        by_place e (inl ne) = absurd (ne e)
        by_place e (inr p) = p
