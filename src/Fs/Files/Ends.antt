-- ===== src/Fs/Files/Ends.antt =====
-- xv6/file.c: the loops of `filewrite` and `writei`, and their fuel.
use tp2_ronaldo_joaopedro.Common.{
  ℕ, zero, suc, ◌+◌, ◌-◌, ◌*◌, ◌/◌, ◌%◌, ◌^◌, ◌<◌, min, true, not, Option, Option-cases, none, some,
  ◌≡◌, ◌≢◌, arith, inl, inr, ltb, leb, Bool-cases, ◌==◌, ◌!=◌, ◌||◌, ◌&&◌, if◌then◌else◌, List,
}
use tp2_ronaldo_joaopedro.Machine.{add32}
use tp2_ronaldo_joaopedro.Log
use tp2_ronaldo_joaopedro.Log.{Log}
use tp2_ronaldo_joaopedro.Fs.{
  Fs, F, Bytes, hang, pure, ◌>>=◌, ◌>>◌, bread, get_inode, short_filewrite,
}
use tp2_ronaldo_joaopedro.Fs.Triples.{
  After, not_hang, branch, returns, fails, Keeps-Ends, Ends, Anything,
}
use tp2_ronaldo_joaopedro.Fs.Blocks.Ends.{write_block-Keeps}
use tp2_ronaldo_joaopedro.Fs.Contents.{
  piece, put_bytes, write_from, grow, writei, slice, bad_major, minus_one,
}
use tp2_ronaldo_joaopedro.Fs.Contents.Ends.{
  and_then, bmap-Keeps, iupdate-Ends, ilock-Ends, iunlock-Ends, get_inode-Ends,
}
use tp2_ronaldo_joaopedro.Fs.Files.{
  Open, begin_op, end_op, chunk_max, write_chunk, write_chunks, filewrite,
}

bread-Ends : (b : ℕ) → Ends (bread b)
bread-Ends b = record { apply = λ s h. tt }

write_from-Ends :
    (fuel i : ℕ) (src : Bytes) (tot off n : ℕ) → n < fuel → Ends (write_from fuel i src tot off n)
unfolding write_from
write_from-Ends zero i src tot off n lt = absurd (omega (arith, lt))
write_from-Ends (suc fuel) i src tot off n lt =
    branch (ltb 0 n)
      (λ more. and_then (Keeps-Ends (bmap-Keeps i (off / 512))) (λ b. and_then (bread-Ends b) (λ v.
        and_then (Keeps-Ends (write_block-Keeps b (put_bytes v (off % 512) src tot (piece off n))))
          (λ _.
            write_from-Ends fuel i src (tot + piece off n) (off + piece off n) (n - piece off n)
              (ground (arith, more, lt))))))
      (λ done. returns tt (λ s h. tt))

grow-Ends : (i off : ℕ) → Ends (grow i off)
unfolding grow
grow-Ends i off = record { apply = λ s h. (iupdate-Ends i).apply _ tt }

written-Ends :
    (i : ℕ) (src : Bytes) (off n : ℕ)
    → Ends (
        write_from (suc n) i src 0 off n >>= λ _. get_inode i >>= λ now.
        (if ltb 0 n && ltb now.size (off + n) then grow i (off + n) else pure tt) >> pure n)
written-Ends i src off n = and_then (write_from-Ends (suc n) i src 0 off n (omega arith)) (λ _.
    and_then (get_inode-Ends i) (λ now.
      and_then
        (branch (ltb 0 n && ltb now.size (off + n)) (λ e. grow-Ends i (off + n))
          (λ e. returns tt (λ s h. tt)))
        (λ _. returns n (λ s h. tt))))

writei-Ends : (i : ℕ) (src : Bytes) (off n : ℕ) → Ends (writei i src off n)
unfolding writei
writei-Ends i src off n = record {
  apply = λ s h.
      let ip = s.inodes i in
      elim (Bool-cases (ip.type == 3)) [
        | inl device ↦ rw device (elim (Bool-cases (bad_major ip.major)) [
          | inl bad ↦ rw bad tt
          | inr good ↦ rw good (by_driver s ((s.devsw ip.major).write))
        ])
        | inr file ↦ rw file (elim (Bool-cases (ltb ip.size off || ltb (add32 off n) off)) [
          | inl bad ↦ rw bad tt
          | inr good ↦ rw good (elim (Bool-cases (ltb (140 * 512) (off + n))) [
            | inl big ↦ rw big tt
            | inr fits ↦ rw fits ((written-Ends i src off n).apply s tt)
          ])
        ])
      ];
}
  where
    run : Option (ℕ → List ℕ → ℕ) → F ℕ
    run o = elim o [ none ↦ pure minus_one | some write ↦ pure (write i (slice src 0 n)) ]

    by_driver : (s : Fs) (o : Option (ℕ → List ℕ → ℕ)) → After (λ _. Anything) (run o s)
    by_driver s none = tt
    by_driver s (some write) = tt

begin_op-Ends : Ends begin_op
unfolding begin_op
begin_op-Ends = record {
  apply = λ s h. elim (Option-cases (Log.begin_op s.log)) [
    | inl full ↦ rw (full, begin_op) tt
    | inr (l, e) ↦ rw (e, begin_op) tt
  ];
}

end_op-Ends : Ends end_op
unfolding end_op
end_op-Ends = record {
  apply = λ s h. elim (Option-cases (Log.end_op s.log)) [
    | inl committing ↦ rw (committing, end_op) tt
    | inr ((commits, l), e) ↦ rw (e, end_op) tt
  ];
}

write_chunk-Ends : (f : Open) (src : Bytes) (i n1 : ℕ) → Ends (write_chunk f src i n1)
unfolding write_chunk
write_chunk-Ends f src i n1 = and_then begin_op-Ends (λ _. and_then (ilock-Ends f.ip) (λ _.
    and_then (writei-Ends f.ip (λ k. src (i + k)) f.off n1)
      (λ r. and_then (iunlock-Ends f.ip) (λ _. and_then end_op-Ends (λ _. returns r (λ s h. tt))))))

-- A chunk of at most `c` bytes leaves fewer to write.
fewer :
    (fuel n i c : ℕ) → 0 < c → ltb i n ≡ true → n - i < suc fuel → n - (i + min (n - i) c) < fuel
fewer fuel n i c some_bytes more lt = ground (arith, some_bytes, more, lt)

write_chunks-Ends :
    (fuel : ℕ) (f : Open) (src : Bytes) (i n : ℕ)
    → n - i < fuel
    → Ends (write_chunks fuel f src i n)
unfolding write_chunks
write_chunks-Ends zero f src i n lt = absurd (omega (arith, lt))
write_chunks-Ends (suc fuel) f src i n lt =
    let n1 = min (n - i) chunk_max in
    branch (ltb i n)
      (λ more. and_then (write_chunk-Ends f src i n1) (λ r.
        branch (leb (2 ^ 31) r) (λ e. returns (i, f) (λ s h. tt))
          (λ e.
            branch (r != n1) (λ e. fails short_filewrite)
              (λ e.
                write_chunks-Ends fuel (record f { off = add32 f.off n1 }) src (i + n1) n
                  (fewer fuel n i chunk_max (omega arith) more lt)))))
      (λ done. returns (i, f) (λ s h. tt))

-- filewrite of an inode, from every state of the file system, comes to an end: the fuel of its loop and
-- of those of the writei in each chunk is never used up.
pub filewrite_ends : (f : Open) (src : Bytes) (n : ℕ) (s : Fs) → filewrite f src n s ≢ hang
unfolding filewrite
filewrite_ends f src n s = not_hang _ (
    (branch (not f.writable || leb (2 ^ 31) n) (λ b. returns (minus_one, f) (λ s' h. tt))
        (λ b.
          and_then (write_chunks-Ends (suc n) f src 0 n (omega arith))
            (λ (i, f'). returns (if i == n then n else minus_one, f') (λ s' h. tt)))).apply
      s tt)
