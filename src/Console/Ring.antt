-- ===== src/Console/Ring.antt =====
-- xv6/console.c: windows of the input ring.
use tp2_ronaldo_joaopedro.Common.{
  ℕ, zero, suc, ◌+◌, ◌%◌, ◌^◌, ◌<◌, ◌≤◌, List, [], ◌∷◌, ◌++◌, length, All, ◌≡◌, refl, ap, ap₂, sym,
  ◌∙◌, arith, ◌==◌, update, ==_ne, ==_refl, true, false, subst,
}

-- The `n` bytes from index `p` on.
abbrev pub window : (ℕ → ℕ) → ℕ → ℕ → List ℕ
window buf p zero = []
window buf p (suc n) = buf (p % 128) ∷ window buf ((p + 1) % 2 ^ 32) n

pub window-append :
    (buf : ℕ → ℕ) (p a b : ℕ)
    → p < 2 ^ 32
    → window buf p (a + b) ≡ window buf p a ++ window buf ((p + a) % 2 ^ 32) b
window-append buf p zero b h =
    let none_more : 0 + b ≡ b = omega arith in
    let here : p ≡ (p + 0) % 2 ^ 32 = omega (arith, h) in
    ap (window buf p) none_more ∙ ap (λ x. window buf x b) here
window-append buf p (suc a) b h =
    let next : suc a + b ≡ suc (a + b) = omega arith in
    let past : ((p + 1) % 2 ^ 32 + a) % 2 ^ 32 ≡ (p + suc a) % 2 ^ 32 = omega arith in
    ap (window buf p) next
    ∙ ap (λ l. buf (p % 128) ∷ l)
        (window-append buf ((p + 1) % 2 ^ 32) a b (omega arith)
          ∙ ap (λ x. window buf ((p + 1) % 2 ^ 32) a ++ window buf x b) past)

-- A write at `k` bytes past a window leaves it.
pub window-update :
    (buf : ℕ → ℕ) (p n k i c : ℕ)
    → n + k ≤ 127
    → i ≡ (p + n + k) % 2 ^ 32 % 128
    → window (update buf i c) p n ≡ window buf p n
window-update buf p zero k i c fits is = refl
window-update buf p (suc n) k i c fits is =
    let other : (i == p % 128) ≡ false = ==_ne i (p % 128) (omega (arith, is, fits)) in
    ap₂ (λ x l. x ∷ l) (rw other refl)
      (window-update buf ((p + 1) % 2 ^ 32) n k i c (omega (arith, fits)) (omega (arith, is)))

-- A write just past a window extends it.
pub window-extend :
    (buf : ℕ → ℕ) (p n i c : ℕ)
    → p < 2 ^ 32
    → n ≤ 127
    → i ≡ (p + n) % 2 ^ 32 % 128
    → window (update buf i c) p (n + 1) ≡ window buf p n ++ c ∷ []
window-extend buf p n i c word fits is =
    let hit : (i == (p + n) % 2 ^ 32 % 128) ≡ true = ap (λ x. i == x) (sym is) ∙ ==_refl i in
    window-append (update buf i c) p n 1 word
    ∙ ap₂ (λ l x. l ++ x ∷ [])
        (window-update buf p n 0 i c (omega (arith, fits)) (omega (arith, is))) (rw hit refl)

abbrev pub but_last : List ℕ → List ℕ
but_last [] = []
but_last (x ∷ []) = []
but_last (x ∷ y ∷ l) = x ∷ but_last (y ∷ l)

pub but_last-window : (buf : ℕ → ℕ) (p n : ℕ) → but_last (window buf p (suc n)) ≡ window buf p n
but_last-window buf p zero = refl
but_last-window buf p (suc n) =
    ap (λ l. buf (p % 128) ∷ l) (but_last-window buf ((p + 1) % 2 ^ 32) n)

-- What holds of all bytes of a window holds of the last, and of all before it.
pub All-last :
    (P : ℕ → Type 0) (buf : ℕ → ℕ) (p n : ℕ)
    → p < 2 ^ 32
    → All P (window buf p (suc n))
    → P (buf ((p + n) % 2 ^ 32 % 128)) × All P (window buf p n)
All-last P buf p zero h (last, t) = (subst (λ x. P (buf (x % 128))) (omega (arith, h)) last, tt)
All-last P buf p (suc n) h (first, later) =
    let (last, front) = All-last P buf ((p + 1) % 2 ^ 32) n (omega arith) later in
    let place : ((p + 1) % 2 ^ 32 + n) % 2 ^ 32 ≡ (p + suc n) % 2 ^ 32 = omega arith in
    (subst (λ x. P (buf (x % 128))) place last, (first, front))

pub length-window : (buf : ℕ → ℕ) (p n : ℕ) → length (window buf p n) ≡ n
length-window buf p zero = refl
length-window buf p (suc n) = ap suc (length-window buf ((p + 1) % 2 ^ 32) n)
