-- ===== src/Log/Crash.antt =====
-- xv6/log.c: a commit that is cut off, and the recovery after it.
use tp2_ronaldo_joaopedro.Common.{
  ℕ, zero, suc, ◌+◌, ◌-◌, ◌<◌, ◌≤◌, List, [], ◌∷◌, ◌++◌, length, take, get_or, drop, ◌≡◌, refl, sym,
  ap, ◌∙◌, ◌⊎◌, inl, inr, arith, leb, update, All, Bool-cases,
}
use tp2_ronaldo_joaopedro.Log.{Block, Store, read_head, head_block, commit}
use tp2_ronaldo_joaopedro.Log.Writes.{Disk, apply, IsHome, copies, installs}
use tp2_ronaldo_joaopedro.Log.Effects.{
  apply-append, copies-elsewhere, Holds, Holds-same, take-all, copies-Holds, installs-elsewhere,
  mixed, installs-mixed, mixed-take, head_block-read,
}
use tp2_ronaldo_joaopedro.Log.Recovery.{
  boot, recovered, all-installed, recovered-home, commit-writes, length-copies,
}

take-first : (k : ℕ) (xs ys : List (ℕ × Block)) → k ≤ length xs → take k (xs ++ ys) ≡ take k xs
take-first zero xs ys h = refl
take-first (suc k) [] ys h = absurd (omega arith)
take-first (suc k) (x ∷ xs) ys h = ap (λ l. x ∷ l) (take-first k xs ys (omega arith))

take-past :
    (k : ℕ) (xs : List (ℕ × Block)) (y : ℕ × Block) (ys : List (ℕ × Block))
    → length xs < k
    → take k (xs ++ y ∷ ys) ≡ xs ++ y ∷ take (k - length xs - 1) ys
take-past zero xs y ys h = absurd (omega arith)
take-past (suc k) [] y ys h = rw (k_k k) refl
  where
    k_k : (k : ℕ) → suc k - 0 - 1 ≡ k
    k_k k = omega arith
take-past (suc k) (x ∷ xs) y ys h =
    ap (λ l. x ∷ l)
      (take-past k xs y ys (omega arith) ∙ ap (λ n. xs ++ y ∷ take n ys) (less k (length xs)))
  where
    less : (k n : ℕ) → k - n - 1 ≡ suc k - suc n - 1
    less k n = omega arith

take-nil : (n : ℕ) → take {A = ℕ × Block} n [] ≡ []
take-nil zero = refl
take-nil (suc n) = refl

-- The disk when the power fails after the first `k` writes of a commit.
abbrev pub interrupted : ℕ → List ℕ → Store → ℕ → Disk
interrupted start lh s k =
    apply (take k (commit start lh (record s { written = [] })).written) s.disk

module _ (start size : ℕ) (lh : List ℕ) (s : Store) (home : All (IsHome start size) lh)
    (small : length lh < size) where
  head_old : Block
  head_old = head_block (apply (copies start 0 lh s.view) s.view start) lh

  -- The disk, or the cache, once the header is written.
  headed : Disk → Disk
  unfolding head_old
  headed d = update (apply (copies start 0 lh s.view) d) start head_old

  headed-Holds : (d : Disk) → Holds start 0 lh (headed d) s.view
  unfolding headed
  headed-Holds d =
      Holds-same start size 0 lh (apply (copies start 0 lh s.view) d) (headed d) s.view
        (omega (arith, small)) (λ x a b. ground (arith, a))
        (copies-Holds start size 0 lh s.view d (omega (arith, small)))

  headed-home : (d : Disk) (b : ℕ) → IsHome start size b → headed d b ≡ d b
  unfolding headed
  headed-home d b out = ground (
    arith,
    out,
    small,
    copied d b (elim out [ inl low ↦ inl (omega (arith, low)) | inr high ↦ inr high ]),
  )
    where
      copied :
          (d : Disk) (b : ℕ)
          → (b ≤ start + 0) ⊎ (start + size ≤ b)
          → apply (copies start 0 lh s.view) d b ≡ d b
      copied d b out =
          ap (λ ws. apply ws d b) (sym (take-all (copies start 0 lh s.view)))
          ∙ copies-elsewhere start size 0 lh s.view d (length (copies start 0 lh s.view)) b
              (omega (arith, small)) out

  headed_start : headed s.disk start ≡ head_old
  unfolding headed
  headed_start = ground arith

  head_old_read : take (get_or head_old 0 0) (drop 1 head_old) ≡ lh
  unfolding head_old
  head_old_read = head_block-read (apply (copies start 0 lh s.view) s.view start) lh

  mixed-here : (d d' : Disk) (b : ℕ) → d b ≡ d' b → mixed lh s.view d b ≡ mixed lh s.view d' b
  mixed-here d d' b e = ground (arith, e)

  -- Cut off before the header is written.
  before :
      (k b : ℕ)
      → read_head start (boot s.disk) ≡ []
      → IsHome start size b
      → recovered start (apply (take k (copies start 0 lh s.view)) s.disk) b ≡ s.disk b
  unfolding read_head
  before k b clean out =
      let d = apply (take k (copies start 0 lh s.view)) s.disk in
      let same : d start ≡ s.disk start =
        copies-elsewhere start size 0 lh s.view s.disk k start (omega (arith, small))
          (inl (omega arith)) in
      recovered-home start size d s.view [] b
        (ap (λ (w : Block). take (get_or w 0 0) (drop 1 w)) same ∙ clean) tt (omega (arith, small))
        tt out
      ∙ copies-elsewhere start size 0 lh s.view s.disk k b (omega (arith, small))
          (elim out [ inl low ↦ inl (omega (arith, low)) | inr high ↦ inr high ])

  -- Cut off while the blocks are put in place.
  during :
      (j b : ℕ)
      → IsHome start size b
      → recovered start (apply (take j (installs start 0 lh (headed s.view))) (headed s.disk)) b
        ≡ mixed lh s.view s.disk b
  unfolding read_head
  during j b out =
      let d = apply (take j (installs start 0 lh (headed s.view))) (headed s.disk) in
      let head : d start ≡ head_old =
        installs-elsewhere start size 0 lh (headed s.view) (headed s.disk) j start home
          (omega arith) (omega (arith, small))
        ∙ headed_start in
      let log =
        Holds-same start size 0 lh (headed s.disk) d s.view (omega (arith, small))
          (λ x a e.
            installs-elsewhere start size 0 lh (headed s.view) (headed s.disk) j x home
              (omega (arith, a)) e)
          (headed-Holds s.disk) in
      recovered-home start size d s.view lh b
        (ap (λ (w : Block). take (get_or w 0 0) (drop 1 w)) head ∙ head_old_read) home small log out
      ∙ mixed-here d (mixed (take j lh) s.view (headed s.disk)) b (
          installs-mixed start 0 lh (headed s.view) s.view (headed s.disk) j b
            (headed-Holds s.view))
      ∙ mixed-take j lh s.view (headed s.disk) b
      ∙ mixed-here (headed s.disk) s.disk b (headed-home s.disk b out)

  -- Not cut off, or only after the header is cleared.
  done :
      (old : Block) (b : ℕ)
      → IsHome start size b
      → recovered start
          (update
            (apply (installs start 0 lh (headed s.view)) (headed s.disk))
            start
            (head_block old []))
          b
        ≡ mixed lh s.view s.disk b
  unfolding read_head
  done old b out =
      let d' = apply (installs start 0 lh (headed s.view)) (headed s.disk) in
      let d = update d' start (head_block old []) in
      let head : d start ≡ head_block old [] = ground arith in
      recovered-home start size d s.view [] b
        (ap (λ (w : Block). take (get_or w 0 0) (drop 1 w)) head ∙ head_block-read old []) tt
        (omega (arith, small)) tt out
      ∙ off_head d' (head_block old []) b out
      ∙ all-installed start 0 lh (headed s.view) s.view (headed s.disk) b (headed-Holds s.view)
      ∙ mixed-here (headed s.disk) s.disk b (headed-home s.disk b out)
    where
      off_head : (d : Disk) (v : Block) (b : ℕ) → IsHome start size b → update d start v b ≡ d b
      off_head d v b out = ground (arith, out, small)

  -- The disk after `j` more writes than it takes to write the header.
  written_past :
      (j b : ℕ) (old : Block)
      → IsHome start size b
      → recovered start
          (apply
            (take j (installs start 0 lh (headed s.view) ++ (start, head_block old []) ∷ []))
            (headed s.disk))
          b
        ≡ mixed lh s.view s.disk b
  written_past j b old out =
      let i = installs start 0 lh (headed s.view) in
      let z : ℕ × Block = (start, head_block old []) in
      elim (Bool-cases (leb j (length i))) [
        | inl some_left ↦ rw (take-first j i (z ∷ []) (ground (arith, some_left))) (during j b out)
        | inr all_done ↦
            rw
              (
                take-past j i z [] (ground (arith, all_done)),
                take-nil (j - length i - 1),
                apply-append i (z ∷ []) (headed s.disk),
              )
              (done old b out)
      ]

  atomic :
      (k b : ℕ)
      → read_head start (boot s.disk) ≡ []
      → 0 < length lh
      → IsHome start size b
      → (k ≤ length lh → recovered start (interrupted start lh s k) b ≡ s.disk b)
        × (length lh < k → recovered start (interrupted start lh s k) b ≡ mixed lh s.view s.disk b)
  unfolding headed head_old
  atomic k b clean some_block out =
      let c = copies start 0 lh s.view in
      let z = head_block (apply (installs start 0 lh (headed s.view)) (headed s.view) start) [] in
      let rest = installs start 0 lh (headed s.view) ++ (start, z) ∷ [] in
      rw (commit-writes start size lh (record s { written = [] }) home some_block small) (
        λ short.
            rw
              (take-first k c ((start, head_old) ∷ rest)
                (omega (arith, short, length-copies start 0 lh s.view)))
              (before k b clean out),
        λ long.
            rw
              (
                take-past k c (start, head_old) rest
                    (omega (arith, long, length-copies start 0 lh s.view)),
                apply-append c ((start, head_old) ∷ take (k - length c - 1) rest) s.disk,
              )
              (written_past (k - length c - 1) b
                (apply (installs start 0 lh (headed s.view)) (headed s.view) start) out),
      )

-- A commit cut off after any number `k` of its disk writes, then recovered: while at most the blocks
-- of the log are written, every block outside the log is as before the transaction; once the
-- header is written, every block of the transaction has its new contents and the others are as
-- before. This holds for a transaction of at least one block, all of them outside the log, that
-- fits in the log, on a disk whose log header is empty.
pub commit-atomic :
    (start size : ℕ) (lh : List ℕ) (s : Store) (k b : ℕ)
    → All (IsHome start size) lh
    → 0 < length lh
    → length lh < size
    → read_head start (boot s.disk) ≡ []
    → IsHome start size b
    → (k ≤ length lh → recovered start (interrupted start lh s k) b ≡ s.disk b)
      × (length lh < k → recovered start (interrupted start lh s k) b ≡ mixed lh s.view s.disk b)
commit-atomic start size lh s k b home some_block small clean out =
    atomic start size lh s home small k b clean some_block out
