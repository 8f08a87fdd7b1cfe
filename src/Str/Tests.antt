-- ===== src/Str/Tests.antt =====
-- The theorem on `memmove` at concrete inputs.
use tp2_ronaldo_joaopedro.Common.{◌≡◌, refl, ◌∷◌, []}
use tp2_ronaldo_joaopedro.Str.{copy_backwards, memmove, strncmp}
use tp2_ronaldo_joaopedro.Str.Moves.{moved, memmove_lem}

overlap : memmove (λ x. x) 11 10 3 13 ≡ 12
unfolding memmove copy_backwards
overlap = refl

differs : strncmp (97 ∷ 98 ∷ []) (97 ∷ 99 ∷ []) 2 ≡ 0xFFFFFFFF
unfolding strncmp
differs = refl

memmove_lem_example : memmove (λ x. x) 11 10 3 13 ≡ moved (λ x. x) 11 10 3 13
memmove_lem_example = memmove_lem (λ x. x) 11 10 3 13
