-- ===== src/Bio/Tests.antt =====
-- The theorem on bio.c at a concrete cache of three buffers.
use tp2_ronaldo_joaopedro.Common.{ℕ, ◌≤◌, false, true, some, List, [], ◌∷◌, ◌≡◌, refl, arith}
use tp2_ronaldo_joaopedro.Bio.{
  Buf, find_cached, recycle, recycled, bget, take_out, drop_refcnt, brelse,
}
use tp2_ronaldo_joaopedro.Bio.Unique.{count, is_pinned, IsUnique, bget-IsUnique}

abbrev buffer : ℕ → ℕ → ℕ → Buf
buffer slot blockno refcnt = record {
  slot = slot;
  dev = 1;
  blockno = blockno;
  refcnt = refcnt;
  valid = true;
  dirty = false;
  words = [];
}

abbrev cache : List Buf
cache = buffer 0 5 1 ∷ buffer 1 6 0 ∷ buffer 2 7 0 ∷ []

abbrev recycled_cache : List Buf
recycled_cache = buffer 0 5 1 ∷ buffer 1 6 0 ∷ recycled 1 9 (buffer 2 7 0) ∷ []

least_recent : bget 1 9 cache ≡ some (2, recycled_cache)
unfolding bget find_cached recycle
least_recent = refl

released :
    brelse 2 recycled_cache
    ≡ record (recycled 1 9 (buffer 2 7 0)) { refcnt = 0 } ∷ buffer 0 5 1 ∷ buffer 1 6 0 ∷ []
unfolding brelse take_out drop_refcnt
released = refl

cache-IsUnique : IsUnique cache
cache-IsUnique dev blockno p = ground arith

bget-IsUnique_example :
    IsUnique recycled_cache
    × ((d n : ℕ) → count (is_pinned d n) cache ≤ count (is_pinned d n) recycled_cache)
bget-IsUnique_example =
    bget-IsUnique 1 9 2 cache recycled_cache (omega arith) cache-IsUnique least_recent
