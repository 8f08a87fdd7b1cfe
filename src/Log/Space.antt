-- ===== src/Log/Space.antt =====
-- xv6/log.c: the blocks of the log that `begin_op` sets aside for the operations under way, and where
-- `log_write` still meets its panic.
use tp2_ronaldo_joaopedro.Common.{
  ℕ, suc, ◌+◌, ◌-◌, ◌*◌, ◌<◌, ◌≤◌, Bool, true, false, ◌||◌, some, List, [], ◌∷◌, ◌++◌, length,
  length-append, ◌≡◌, ◌↔◌, ◌⊎◌, refl, subst, ap, inl, inr, arith, ◌==◌, ltb, leb, if◌then◌else◌,
  All, Bool-cases,
}
use tp2_ronaldo_joaopedro.Log.{
  Log, begin_op, end_op, log_write, logged, log_panic, too_big, member, logsize, maxopblocks,
}

-- What the operations that are under way may still log.
abbrev pub total : List ℕ → ℕ
total [] = 0
total (r ∷ rs) = r + total rs

abbrev pub AtMost : ℕ → List ℕ → Type 0
AtMost n = All (λ r. r ≤ n)

-- `rest` gives for each operation under way how many blocks it may still log.
pub record IsRoomy (l : Log) (rest : List ℕ) : Type 0 where
  pub count : l.outstanding ≡ length rest
  pub each : AtMost maxopblocks rest
  pub room : length l.lh + total rest ≤ logsize

total-AtMost : (rest : List ℕ) → AtMost maxopblocks rest → total rest ≤ length rest * maxopblocks
total-AtMost [] h = omega arith
total-AtMost (r ∷ rs) (h, hs) = omega (arith, h, total-AtMost rs hs)

begin_op-cases :
    (l l' : Log)
    → begin_op l ≡ some l'
    → (length l.lh + (l.outstanding + 1) * maxopblocks ≤ logsize)
      × (record l { outstanding = l.outstanding + 1 } ≡ l')
unfolding begin_op
begin_op-cases l l' e = (ground (arith, e), ground (arith, e))

-- Where the operations under way may still log blocks that all fit in the log, and begin_op lets
-- one more in, its ten blocks fit as well.
pub begin_op-IsRoomy :
    (l l' : Log) (rest : List ℕ)
    → IsRoomy l rest
    → begin_op l ≡ some l'
    → IsRoomy l' (maxopblocks ∷ rest)
unfolding begin_op
begin_op-IsRoomy l l' rest v e =
    let (space, is) = begin_op-cases l l' e in
    subst (λ x. IsRoomy x (maxopblocks ∷ rest)) is
      (record {
        count = omega (arith, v.count);
        each = (omega arith, v.each);
        room = omega (arith, v.count, space, total-AtMost rest v.each);
      })

more_left : (r : ℕ) (rest : List ℕ) → total (suc r ∷ rest) ≡ suc (total (r ∷ rest))
more_left r rest = omega arith

member-last : (b : ℕ) (bs : List ℕ) → member b (bs ++ b ∷ []) ≡ true
member-last b [] = ground arith
member-last b (x ∷ bs) = ground (arith, member-last b bs)

log_write-logged :
    (l : Log) (r : ℕ) (rest : List ℕ) (blockno : ℕ)
    → length l.lh + 1 < l.size
    → IsRoomy l (suc r ∷ rest)
    → (l' : Log) × (log_write l blockno ≡ logged l')
      × (member blockno l'.lh ≡ true)
      × IsRoomy l' ((if member blockno l.lh then suc r else r) ∷ rest)
unfolding log_write
log_write-logged l r rest blockno small v =
    let fits : (leb logsize (length l.lh) || leb (l.size - 1) (length l.lh)) ≡ false =
      ground (arith, v.room, small) in
    let inside : ltb l.outstanding 1 ≡ false = ground (arith, v.count) in
    elim (Bool-cases (member blockno l.lh)) [
      | inl old ↦ (l, rw (fits, inside, old) refl, old, rw old v)
      | inr new ↦ (
        record l { lh = l.lh ++ blockno ∷ [] },
        rw (fits, inside, new) refl,
        member-last blockno l.lh,
        rw new (record {
          count = v.count;
          each = (omega (arith, v.each.0), v.each.1);
          room = omega (arith, v.room, length-append l.lh (blockno ∷ []), more_left r rest);
        }),
      )
    ]

-- Where the operations under way may still log blocks that fit in LOGSIZE, in a log of at least LOGSIZE
-- blocks, one that may log another block either meets the panic for too big a transaction: then the log
-- has exactly LOGSIZE blocks, the header lists one block fewer, and this block is all that is left of
-- what was set aside; or the block is in the header then, the allowances still fit, and that of the
-- operation falls by one unless the block was there before.
pub log_write-IsRoomy :
    (l : Log) (r : ℕ) (rest : List ℕ) (blockno : ℕ)
    → logsize ≤ l.size
    → IsRoomy l (suc r ∷ rest)
    → ((log_write l blockno ≡ log_panic too_big)
        × (l.size ≡ logsize)
        × (length l.lh + 1 ≡ logsize)
        × (r + total rest ≡ 0))
      ⊎ ((length l.lh + 1 < l.size)
          × (l' : Log) × (log_write l blockno ≡ logged l')
          × (member blockno l'.lh ≡ true)
          × IsRoomy l' ((if member blockno l.lh then suc r else r) ∷ rest))
unfolding log_write
log_write-IsRoomy l r rest blockno big v = elim (Bool-cases (leb (l.size - 1) (length l.lh))) [
  | inl full ↦
      let last : l.size ≤ length l.lh + 1 = ground (arith, full) in
      let test : (leb logsize (length l.lh) || leb (l.size - 1) (length l.lh)) ≡ true =
        ground (arith, full) in
      inl (
        rw test refl,
        omega (arith, last, big, v.room),
        omega (arith, last, big, v.room),
        omega (arith, last, big, v.room),
      )
  | inr space ↦
      let small : length l.lh + 1 < l.size = ground (arith, space, big) in
      let (l', e, there, v') = log_write-logged l r rest blockno small v in
      inr (small, l', e, there, v')
]

none_left : (rest : List ℕ) → length rest ≡ 0 → rest ≡ []
none_left [] h = refl
none_left (r ∷ rest) h = absurd (omega (arith, h))

-- The end of an operation with no commit under way does not meet a panic, keeps the room of the
-- other operations, and starts a commit exactly if there are none.
pub end_op-IsRoomy :
    (l : Log) (r : ℕ) (rest : List ℕ)
    → IsRoomy l (r ∷ rest)
    → l.committing ≡ false
    → (c : Bool) × (l' : Log) × (end_op l ≡ some (c, l')) × IsRoomy l' rest × (c ≡ true ↔ rest ≡ [])
unfolding end_op
end_op-IsRoomy l r rest v idle = elim (Bool-cases (l.outstanding == 1)) [
  | inl last ↦ (
    true,
    record l { outstanding = l.outstanding - 1; committing = true },
    rw (idle, last) refl,
    ended l r rest v true,
    (λ h. none_left rest (ground (arith, last, v.count)), λ h. refl),
  )
  | inr more ↦ (
    false,
    record l { outstanding = l.outstanding - 1 },
    rw (idle, more) refl,
    ended l r rest v l.committing,
    (λ h. absurd (ground (arith, h)), λ h. ground (arith, more, v.count, ap length h)),
  )
]
  where
    ended :
        (l : Log) (r : ℕ) (rest : List ℕ)
        → IsRoomy l (r ∷ rest)
        → (b : Bool) → IsRoomy (record l { outstanding = l.outstanding - 1; committing = b }) rest
    ended l r rest v b = record {
      count = omega (arith, v.count);
      each = v.each.1;
      room = omega (arith, v.room);
    }
