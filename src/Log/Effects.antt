-- ===== src/Log/Effects.antt =====
-- What the writes of a commit in xv6/log.c leave on the disk, in the log and outside it, also where
-- only the first `k` of them are made.
use tp2_ronaldo_joaopedro.Common.{
  ℕ, zero, suc, ◌+◌, ◌<◌, ◌≤◌, false, List, [], ◌∷◌, ◌++◌, length, take, drop, get_or, ◌≡◌, refl,
  sym, ap, ◌∙◌, ◌⊎◌, inl, arith, ◌==◌, update, if◌then◌else◌, All, Bool-cases,
}
use tp2_ronaldo_joaopedro.Log.{Block, member, head_block}
use tp2_ronaldo_joaopedro.Log.Writes.{Disk, apply, IsHome, copies, installs}

pub apply-append :
    (ws ws' : List (ℕ × Block)) (d : Disk) → apply (ws ++ ws') d ≡ apply ws' (apply ws d)
apply-append [] ws' d = refl
apply-append ((b, v) ∷ ws) ws' d = apply-append ws ws' (update d b v)

pub copies-elsewhere :
    (start size tail : ℕ) (bs : List ℕ) (view d : Disk) (k x : ℕ)
    → tail + length bs < size
    → (x ≤ start + tail) ⊎ (start + size ≤ x)
    → apply (take k (copies start tail bs view)) d x ≡ d x
copies-elsewhere start size tail [] view d zero x h e = refl
copies-elsewhere start size tail [] view d (suc k) x h e = refl
copies-elsewhere start size tail (b ∷ bs) view d zero x h e = refl
copies-elsewhere start size tail (b ∷ bs) view d (suc k) x h e =
    copies-elsewhere start size (tail + 1) bs view (update d (start + tail + 1) (view b)) k x
      (omega arith) (ground (arith, e, h))
    ∙ ground (arith, e, h)

-- The log holds the contents `w` of the blocks `bs`.
abbrev pub Holds : ℕ → ℕ → List ℕ → Disk → Disk → Type 0
Holds start tail [] v w = Unit {0}
Holds start tail (b ∷ bs) v w = (v (start + tail + 1) ≡ w b) × Holds start (tail + 1) bs v w

pub Holds-same :
    (start size tail : ℕ) (bs : List ℕ) (v v' w : Disk)
    → tail + length bs < size
    → ((x : ℕ) → start < x → x < start + size → v' x ≡ v x)
    → Holds start tail bs v w
    → Holds start tail bs v' w
Holds-same start size tail [] v v' w k same h = tt
Holds-same start size tail (b ∷ bs) v v' w k same (e, h) = (
  same (start + tail + 1) (omega arith) (omega arith) ∙ e,
  Holds-same start size (tail + 1) bs v v' w (omega arith) same h,
)

pub take-all : (ws : List (ℕ × Block)) → take (length ws) ws ≡ ws
take-all [] = refl
take-all (w ∷ ws) = ap (λ l. w ∷ l) (take-all ws)

pub copies-Holds :
    (start size tail : ℕ) (bs : List ℕ) (view d : Disk)
    → tail + length bs < size
    → Holds start tail bs (apply (copies start tail bs view) d) view
copies-Holds start size tail [] view d h = tt
copies-Holds start size tail (b ∷ bs) view d h =
    let x = start + tail + 1 in
    let rest = copies start (tail + 1) bs view in
    (
      ap (λ ws. apply ws (update d x (view b)) x) (sym (take-all rest))
          ∙ copies-elsewhere start size (tail + 1) bs view (update d x (view b)) (length rest) x
              (omega arith) (inl (omega arith))
          ∙ ground arith,
      copies-Holds start size (tail + 1) bs view (update d x (view b)) (omega arith),
    )

pub installs-elsewhere :
    (start size tail : ℕ) (bs : List ℕ) (view d : Disk) (k x : ℕ)
    → All (IsHome start size) bs
    → start ≤ x
    → x < start + size
    → apply (take k (installs start tail bs view)) d x ≡ d x
installs-elsewhere start size tail [] view d zero x h a e = refl
installs-elsewhere start size tail [] view d (suc k) x h a e = refl
installs-elsewhere start size tail (b ∷ bs) view d zero x h a e = refl
installs-elsewhere start size tail (b ∷ bs) view d (suc k) x (h, hs) a e =
    installs-elsewhere start size (tail + 1) bs view (update d b (view (start + tail + 1))) k x hs a
      e
    ∙ ground (arith, h)

-- The blocks `bs` with their contents in `w`, all others as in `d`.
abbrev pub mixed : List ℕ → Disk → Disk → Disk
mixed bs w d b = if member b bs then w b else d b

pub installs-mixed :
    (start tail : ℕ) (bs : List ℕ) (v w d : Disk) (k b : ℕ)
    → Holds start tail bs v w
    → apply (take k (installs start tail bs v)) d b ≡ mixed (take k bs) w d b
installs-mixed start tail [] v w d zero b h = refl
installs-mixed start tail [] v w d (suc k) b h = refl
installs-mixed start tail (x ∷ bs) v w d zero b h = refl
installs-mixed start tail (x ∷ bs) v w d (suc k) b (e, h) =
    installs-mixed start (tail + 1) bs v w (update d x (v (start + tail + 1))) k b h
    ∙ ground (arith, e, Bool-cases (x == b), Bool-cases (member b (take k bs)))

pub mixed-take :
    (k : ℕ) (bs : List ℕ) (w d : Disk) (b : ℕ)
    → mixed bs w (mixed (take k bs) w d) b ≡ mixed bs w d b
mixed-take k bs w d b = ground (arith, member-take k bs b)
  where
    member-take : (k : ℕ) (bs : List ℕ) (b : ℕ) → member b bs ≡ false → member b (take k bs) ≡ false
    member-take zero bs b h = refl
    member-take (suc k) [] b h = refl
    member-take (suc k) (x ∷ bs) b h = ground (arith, h, member-take k bs b)

pub head_block-read :
    (old : Block) (lh : List ℕ)
    → take (get_or (head_block old lh) 0 0) (drop 1 (head_block old lh)) ≡ lh
unfolding head_block
head_block-read old lh = take-append lh (drop (length lh + 1) old)
  where
    take-append : (xs ys : List ℕ) → take (length xs) (xs ++ ys) ≡ xs
    take-append [] ys = refl
    take-append (x ∷ xs) ys = ap (λ l. x ∷ l) (take-append xs ys)
