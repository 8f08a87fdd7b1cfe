-- ===== src/Str/Moves.antt =====
-- xv6/string.c: `memmove` against a copy that is done all at once.
use tp2_ronaldo_joaopedro.Common.{
  ℕ, zero, suc, ◌+◌, ◌-◌, ◌≤◌, true, false, ◌&&◌, ◌≡◌, ◌∙◌, ◌⊎◌, inl, inr, arith, ◌==◌, ltb, leb,
  update, if◌then◌else◌, Bool-cases,
}
use tp2_ronaldo_joaopedro.Str.{copy_forwards, copy_backwards, memmove}

-- The memory with `n` bytes from `s` put at `d`, all at once.
abbrev pub moved : (ℕ → ℕ) → ℕ → ℕ → ℕ → ℕ → ℕ
moved m d s n x = if leb d x && ltb x (d + n) then m (s + (x - d)) else m x

copy_forwards-moved :
    (m : ℕ → ℕ) (d s n x : ℕ) → (d ≤ s) ⊎ (s + n ≤ d) → copy_forwards m d s n x ≡ moved m d s n x
unfolding copy_forwards
copy_forwards-moved m d s zero x h = ground arith
copy_forwards-moved m d s (suc n) x h =
    copy_forwards-moved (update m d (m s)) (d + 1) (s + 1) n x (omega (arith, h)) ∙ step
  where
    at_start : d ≡ x → s + (x - d) ≡ s
    at_start e = omega (arith, e)

    past : leb (d + 1) x ≡ true → s + 1 + (x - (d + 1)) ≡ s + (x - d)
    past e = ground (arith, e)

    step : moved (update m d (m s)) (d + 1) (s + 1) n x ≡ moved m d s (suc n) x
    step = elim (Bool-cases (d == x)) [
      | inl here ↦
          let e : s + (x - d) ≡ s = at_start (ground (arith, here)) in ground (arith, here, e)
      | inr there ↦ elim (Bool-cases (leb (d + 1) x)) [
        | inl after ↦ ground (arith, there, after, past after, h)
        | inr before ↦ ground (arith, there, before)
      ]
    ]

copy_backwards-moved :
    (m : ℕ → ℕ) (d s n x : ℕ) → s ≤ d → copy_backwards m d s n x ≡ moved m d s n x
unfolding copy_backwards
copy_backwards-moved m d s zero x h = ground arith
copy_backwards-moved m d s (suc n) x h =
    copy_backwards-moved (update m (d + n) (m (s + n))) d s n x h ∙ step
  where
    at_end : d + n ≡ x → s + (x - d) ≡ s + n
    at_end e = omega (arith, e)

    step : moved (update m (d + n) (m (s + n))) d s n x ≡ moved m d s (suc n) x
    step = elim (Bool-cases (d + n == x)) [
      | inl here ↦
          let e : s + (x - d) ≡ s + n = at_end (ground (arith, here)) in ground (arith, here, e)
      | inr there ↦ ground (arith, there, h)
    ]

-- memmove leaves at each address of the destination the byte that the source held before, and every
-- other byte as it was, for all overlaps of the two.
pub memmove_lem : (m : ℕ → ℕ) (d s n x : ℕ) → memmove m d s n x ≡ moved m d s n x
unfolding memmove
memmove_lem m d s n x = elim (Bool-cases (ltb s d && ltb d (s + n))) [
  | inl behind ↦ rw behind (copy_backwards-moved m d s n x (ground (arith, behind)))
  | inr ahead ↦ rw ahead (copy_forwards-moved m d s n x (apart ahead))
]
  where
    apart : (ltb s d && ltb d (s + n)) ≡ false → (d ≤ s) ⊎ (s + n ≤ d)
    apart e = elim (Bool-cases (ltb s d)) [
      | inl before ↦ inr (ground (arith, e, before))
      | inr after ↦ inl (ground (arith, after))
    ]
