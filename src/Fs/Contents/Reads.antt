-- ===== src/Fs/Contents/Reads.antt =====
-- xv6/fs.c: `readi` and the bytes of the file.
use tp2_ronaldo_joaopedro.Common.{
  ℕ, zero, suc, ◌+◌, ◌-◌, ◌/◌, ◌%◌, ◌^◌, ◌<◌, ◌≤◌, min, ◌||◌, [], ◌++◌, ◌≡◌, ◌≢◌, refl, ap, ap₂,
  sym, ◌∙◌, inl, inr, arith, ==_ne, ltb, if◌then◌else◌, Bool-cases,
}
use tp2_ronaldo_joaopedro.Machine.{add32}
use tp2_ronaldo_joaopedro.Fs.{Fs, ok}
use tp2_ronaldo_joaopedro.Fs.Room.{bind-ok}
use tp2_ronaldo_joaopedro.Fs.Contents.{bmap, piece, read_from, readi, minus_one}
use tp2_ronaldo_joaopedro.Fs.Contents.Mapped.{
  IsMapped, contents, contents-append, slice-contents, bmap-IsMapped,
}

read_from-contents :
    (fuel i off n size : ℕ) (s : Fs)
    → IsMapped s i size
    → n < fuel
    → off + n ≤ size
    → read_from fuel i off n s ≡ ok (contents s i off n) s
unfolding read_from
read_from-contents zero i off n size s h f b = absurd (omega arith)
read_from-contents (suc fuel) i off n size s h f b = elim (Bool-cases (ltb 0 n)) [
  | inr done ↦ let e : n ≡ 0 = ground (arith, done) in rw (done, e) refl
  | inl more ↦
      let m = piece off n in
      let later =
        read_from-contents fuel i (off + m) (n - m) size s h (ground (arith, more, f))
          (ground (arith, b)) in
      let whole : m + (n - m) ≡ n = ground arith in
      rw more (
        bind-ok (bmap i (off / 512)) _ s
          (bmap-IsMapped s i size (off / 512) h (ground (arith, more, b)))
          (bind-ok (read_from fuel i (off + m) (n - m)) _ s later (
            ap (λ l. ok l s)
              (ap₂ (λ x y. x ++ y)
                  (slice-contents s i off m (off / 512) (off % 512) refl refl (ground arith)) refl
                ∙ sym (contents-append s i off m (n - m))
                ∙ ap (contents s i off) whole))))
]

-- readi, of a file that is no device and whose blocks are all there, leaves the file system as it is and
-- returns -1 for an offset past the end or an end that is no 32-bit number; else it returns the
-- bytes of the file from the offset on, as many as asked for or as there are up to its end, and how
-- many they are.
pub readi-contents :
    (i off n : ℕ) (s : Fs)
    → (s.inodes i).type ≢ 3
    → IsMapped s i (s.inodes i).size
    → off < 2 ^ 32
    → n < 2 ^ 32
    → readi i off n s ≡ (
        if ltb (s.inodes i).size off || ltb (2 ^ 32 - 1) (off + n)
        then ok (minus_one, []) s
        else ok
            (min n ((s.inodes i).size - off), contents s i off (min n ((s.inodes i).size - off)))
            s)
unfolding readi
readi-contents i off n s file h p q =
    let size = (s.inodes i).size in
    let wraps : ltb (add32 off n) off ≡ ltb (2 ^ 32 - 1) (off + n) = ground (arith, p, q) in
    let len : (if ltb size (off + n) then size - off else n) ≡ min n (size - off) = ground arith in
    rw (==_ne (s.inodes i).type 3 file, wraps, len)
      (elim (Bool-cases (ltb size off || ltb (2 ^ 32 - 1) (off + n))) [
        | inl bad ↦ rw bad refl
        | inr good ↦ rw good (
            bind-ok (read_from (suc (min n (size - off))) i off (min n (size - off))) _ s
              (read_from-contents (suc (min n (size - off))) i off (min n (size - off)) size s h
                (omega arith) (ground (arith, good)))
              refl)
      ])
