-- ===== src/Log/Recovery.antt =====
-- Recovery in xv6/log.c from what the log and its header hold, and the writes of a whole commit.
use mathlib.Core.List.{append_assoc}
use tp2_ronaldo_joaopedro.Common.{
  ℕ, suc, ◌+◌, ◌<◌, true, false, List, [], ◌∷◌, ◌++◌, length, take, ◌≡◌, refl, sym, ap, ◌∙◌, arith,
  ◌==◌, ltb, All,
}
use tp2_ronaldo_joaopedro.Log.{
  Block, Store, bwrite, write_head, read_head, head_block, commit, recover_from_log,
}
use tp2_ronaldo_joaopedro.Log.Writes.{
  Disk, apply, after, IsHome, copies, installs, write_log-after, install_trans-after,
}
use tp2_ronaldo_joaopedro.Log.Effects.{Holds, take-all, mixed, installs-mixed}

-- After a restart the cache is empty.
abbrev pub boot : Disk → Store
boot d = record { disk = d; view = d; written = [] }

abbrev pub recovered : ℕ → Disk → Disk
recovered start d = (recover_from_log start (boot d)).disk

mixed_self : (bs : List ℕ) (w d : Disk) (b : ℕ) → mixed (take (length bs) bs) w d b ≡ mixed bs w d b
mixed_self bs w d b = rw (take-self bs) refl
  where
    take-self : (xs : List ℕ) → take (length xs) xs ≡ xs
    take-self [] = refl
    take-self (x ∷ xs) = ap (λ l. x ∷ l) (take-self xs)

length-installs :
    (start tail : ℕ) (bs : List ℕ) (v : Disk) → length (installs start tail bs v) ≡ length bs
length-installs start tail [] v = refl
length-installs start tail (b ∷ bs) v = ap suc (length-installs start (tail + 1) bs v)

pub length-copies :
    (start tail : ℕ) (bs : List ℕ) (v : Disk) → length (copies start tail bs v) ≡ length bs
length-copies start tail [] v = refl
length-copies start tail (b ∷ bs) v = ap suc (length-copies start (tail + 1) bs v)

pub all-installed :
    (start tail : ℕ) (bs : List ℕ) (v w d : Disk) (b : ℕ)
    → Holds start tail bs v w
    → apply (installs start tail bs v) d b ≡ mixed bs w d b
all-installed start tail bs v w d b h =
    ap (λ ws. apply ws d b) (sym (take-all (installs start tail bs v)))
    ∙ installs-mixed start tail bs v w d (length (installs start tail bs v)) b h
    ∙ ap (λ n. mixed (take n bs) w d b) (length-installs start tail bs v)
    ∙ mixed_self bs w d b

-- Recovery puts the blocks of the header in place, as the log holds them.
pub recovered-home :
    (start size : ℕ) (d w : Disk) (bs : List ℕ) (b : ℕ)
    → read_head start (boot d) ≡ bs
    → All (IsHome start size) bs
    → length bs < size
    → Holds start 0 bs d w
    → IsHome start size b
    → recovered start d b ≡ mixed bs w d b
unfolding recover_from_log write_head bwrite
recovered-home start size d w bs b e home small h out =
    let away : (start == b) ≡ false = ground (arith, out, small) in
    rw (e, install_trans-after start size 0 bs (boot d) home (omega (arith, small)), away)
      (all-installed start 0 bs d w d b h)

-- The writes of a commit, in their order.
abbrev pub commits : ℕ → List ℕ → Store → List (ℕ × Block)
commits start lh s =
    let logged = after (copies start 0 lh s.view) s in
    let headed = after ((start, head_block (logged.view start) lh) ∷ []) logged in
    let installed = after (installs start 0 lh headed.view) headed in
    copies start 0 lh s.view
    ++ (start, head_block (logged.view start) lh)
      ∷ (installs start 0 lh headed.view ++ (start, head_block (installed.view start) []) ∷ [])

reassoc :
    (w c i : List (ℕ × Block)) (h z : ℕ × Block)
    → (((w ++ c) ++ h ∷ []) ++ i) ++ z ∷ [] ≡ w ++ (c ++ h ∷ (i ++ z ∷ []))
reassoc w c i h z =
    append_assoc ((w ++ c) ++ h ∷ []) i (z ∷ [])
    ∙ append_assoc (w ++ c) (h ∷ []) (i ++ z ∷ [])
    ∙ append_assoc w c (h ∷ (i ++ z ∷ []))

pub commit-writes :
    (start size : ℕ) (lh : List ℕ) (s : Store)
    → All (IsHome start size) lh
    → 0 < length lh
    → length lh < size
    → (commit start lh s).written ≡ s.written ++ commits start lh s
unfolding commit write_head bwrite
commit-writes start size lh s home some_block small =
    let go : ltb 0 (length lh) ≡ true = ground arith in
    let logged = after (copies start 0 lh s.view) s in
    let headed = bwrite start (head_block (logged.view start) lh) logged in
    rw (go, write_log-after start size 0 lh s home (omega (arith, small)))
      (rw (install_trans-after start size 0 lh headed home (omega (arith, small))) (
        reassoc s.written (copies start 0 lh s.view) (installs start 0 lh headed.view)
          (start, head_block (logged.view start) lh)
          (start, head_block ((after (installs start 0 lh headed.view) headed).view start) [])))
