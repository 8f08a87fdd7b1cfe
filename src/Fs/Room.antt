-- ===== src/Fs/Room.antt =====
-- xv6/fs.c: a write of a block within a transaction whose log has room.
use tp2_ronaldo_joaopedro.Common.{
  ℕ, suc, ◌+◌, ◌-◌, ◌≤◌, ◌<◌, [], ◌∷◌, ◌++◌, length, length-append, ◌≡◌, refl, ap, subst, ◌∙◌,
  arith, inl, inr, update, Bool-cases,
}
use tp2_ronaldo_joaopedro.Log.{Log, log_write, member, logged}
use tp2_ronaldo_joaopedro.Fs.{Fs, F, Outcome, Stop, ok, stop, hang, ◌>>=◌, Bytes, write_block}

-- The first call of a sequence, when it returns.
pub bind-ok {ℓ κ} :
    {A : Type ℓ} {B : Type κ} {s' : Fs} {a : A} {r : Outcome B} (c : F A) (f : A → F B) (s : Fs)
    → c s ≡ ok a s'
    → f a s' ≡ r
    → (c >>= f) s ≡ r
bind-ok c f s e h = ap (λ o. elim o [ ok a s' ↦ f a s' | stop p ↦ stop p | hang ↦ hang ]) e ∙ h

-- The first call of a sequence, when it stops.
pub bind-stop {ℓ κ} :
    {A : Type ℓ} {B : Type κ} {p : Stop} (c : F A) (f : A → F B) (s : Fs)
    → c s ≡ stop p
    → (c >>= f) s ≡ stop p
bind-stop c f s e = ap (λ o. elim o [ ok a s' ↦ f a s' | stop p ↦ stop p | hang ↦ hang ]) e

-- The log takes `n` more blocks.
pub record HasRoom (n : ℕ) (l : Log) : Type 0 where
  pub inside : 0 < l.outstanding
  pub in_log : length l.lh + n ≤ 30
  pub on_disk : length l.lh + n ≤ l.size - 1

log_write-HasRoom :
    (n b : ℕ) (l : Log)
    → HasRoom (suc n) l
    → (l' : Log) × (log_write l b ≡ logged l') × HasRoom n l'
unfolding log_write
log_write-HasRoom n b l h = elim (Bool-cases (member b l.lh)) [
  | inl there ↦ (
    l,
    ground (arith, there, h.inside, h.in_log, h.on_disk),
    record {
      inside = h.inside;
      in_log = omega (arith, h.in_log);
      on_disk = omega (arith, h.on_disk);
    },
  )
  | inr absent ↦ (
    record l { lh = l.lh ++ b ∷ [] },
    ground (arith, absent, h.inside, h.in_log, h.on_disk),
    record {
      inside = h.inside;
      in_log = omega (arith, h.in_log, length-append l.lh (b ∷ []));
      on_disk = omega (arith, h.on_disk, length-append l.lh (b ∷ []));
    },
  )
]

-- The write takes place, and the block is in the log.
pub write_block-HasRoom :
    (n b : ℕ) (v : Bytes) (s : Fs)
    → HasRoom (suc n) s.log
    → (l : Log) × (write_block b v s ≡ ok tt (record s { blocks = update s.blocks b v; log = l }))
      × HasRoom n l
unfolding write_block
write_block-HasRoom n b v s h = let (l, e, r) = log_write-HasRoom n b s.log h in (l, rw e refl, r)

pub HasRoom-weaken : (k n : ℕ) (l : Log) → HasRoom (k + n) l → HasRoom n l
HasRoom-weaken k n l h = record {
  inside = h.inside;
  in_log = omega (arith, h.in_log);
  on_disk = omega (arith, h.on_disk);
}

pub HasRoom-at : (m n : ℕ) (l : Log) → m ≡ n → HasRoom m l → HasRoom n l
HasRoom-at m n l e h = subst (λ x. HasRoom x l) e h
