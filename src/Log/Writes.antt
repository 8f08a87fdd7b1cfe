-- ===== src/Log/Writes.antt =====
-- The disk writes that `write_log`, `install_trans` and `write_head` in xv6/log.c make, as lists.
use mathlib.Core.List.{append_assoc, append-nil}
use tp2_ronaldo_joaopedro.Common.{
  ℕ, ◌+◌, ◌<◌, ◌≤◌, false, List, [], ◌∷◌, ◌++◌, length, ◌≡◌, refl, sym, ap, ◌∙◌, ◌⊎◌, arith, ◌==◌,
  update, All,
}
use tp2_ronaldo_joaopedro.Log.{Block, Store, bwrite, write_log, install_trans}

abbrev pub Disk : Type 0
Disk = ℕ → Block

abbrev pub apply : List (ℕ × Block) → Disk → Disk
apply [] d = d
apply ((b, v) ∷ ws) d = apply ws (update d b v)

-- A store after further writes.
abbrev pub after : List (ℕ × Block) → Store → Store
after ws s = record { disk = apply ws s.disk; view = apply ws s.view; written = s.written ++ ws }

pub bwrite-after :
    (b : ℕ) (v : Block) (ws : List (ℕ × Block)) (s : Store)
    → after ws (bwrite b v s) ≡ after ((b, v) ∷ ws) s
unfolding bwrite
bwrite-after b v ws s =
    ap
      (λ l. record {
        disk = apply ws (update s.disk b v);
        view = apply ws (update s.view b v);
        written = l;
      })
      (append_assoc s.written ((b, v) ∷ []) ws)

pub after-nil : (s : Store) → s ≡ after [] s
after-nil s = sym (ap (λ l. record s { written = l }) (append-nil s.written))

-- Blocks outside the log, which starts at `start` and has `size` blocks.
abbrev pub IsHome : ℕ → ℕ → ℕ → Type 0
IsHome start size b = (b < start) ⊎ (start + size ≤ b)

abbrev pub copies : ℕ → ℕ → List ℕ → Disk → List (ℕ × Block)
copies start tail [] view = []
copies start tail (b ∷ bs) view = (start + tail + 1, view b) ∷ copies start (tail + 1) bs view

abbrev pub installs : ℕ → ℕ → List ℕ → Disk → List (ℕ × Block)
installs start tail [] view = []
installs start tail (b ∷ bs) view = (b, view (start + tail + 1)) ∷ installs start (tail + 1) bs view

copies-update :
    (start size tail : ℕ) (bs : List ℕ) (view : Disk) (x : ℕ) (v : Block)
    → All (IsHome start size) bs
    → start < x
    → x < start + size
    → copies start tail bs (update view x v) ≡ copies start tail bs view
copies-update start size tail [] view x v h a c = refl
copies-update start size tail (b ∷ bs) view x v (h, hs) a c =
    let ne : (x == b) ≡ false = ground (arith, h) in
    rw (ne, copies-update start size (tail + 1) bs view x v hs a c) refl

pub write_log-after :
    (start size tail : ℕ) (bs : List ℕ) (s : Store)
    → All (IsHome start size) bs
    → tail + length bs < size
    → write_log start tail bs s ≡ after (copies start tail bs s.view) s
unfolding write_log bwrite
write_log-after start size tail [] s h k = after-nil s
write_log-after start size tail (b ∷ bs) s (h, hs) k =
    write_log-after start size (tail + 1) bs (bwrite (start + tail + 1) (s.view b) s) hs
      (omega arith)
    ∙ ap (λ ws. after ws (bwrite (start + tail + 1) (s.view b) s))
        (copies-update start size (tail + 1) bs s.view (start + tail + 1) (s.view b) hs
          (omega arith) (omega arith))
    ∙ bwrite-after (start + tail + 1) (s.view b) (copies start (tail + 1) bs s.view) s

installs-update :
    (start size tail : ℕ) (bs : List ℕ) (view : Disk) (x : ℕ) (v : Block)
    → IsHome start size x
    → tail + length bs < size
    → installs start tail bs (update view x v) ≡ installs start tail bs view
installs-update start size tail [] view x v h k = refl
installs-update start size tail (b ∷ bs) view x v h k =
    let ne : (x == start + tail + 1) ≡ false = ground (arith, h) in
    rw (ne, installs-update start size (tail + 1) bs view x v h (omega arith)) refl

pub install_trans-after :
    (start size tail : ℕ) (bs : List ℕ) (s : Store)
    → All (IsHome start size) bs
    → tail + length bs < size
    → install_trans start tail bs s ≡ after (installs start tail bs s.view) s
unfolding install_trans bwrite
install_trans-after start size tail [] s h k = after-nil s
install_trans-after start size tail (b ∷ bs) s (h, hs) k =
    install_trans-after start size (tail + 1) bs (bwrite b (s.view (start + tail + 1)) s) hs
      (omega arith)
    ∙ ap (λ ws. after ws (bwrite b (s.view (start + tail + 1)) s))
        (installs-update start size (tail + 1) bs s.view b (s.view (start + tail + 1)) h
          (omega arith))
    ∙ bwrite-after b (s.view (start + tail + 1)) (installs start (tail + 1) bs s.view) s
