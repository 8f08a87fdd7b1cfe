-- ===== src/Console/Editing.antt =====
-- xv6/console.c: the ring of the console against the line editor.
use tp2_ronaldo_joaopedro.Common.{
  ℕ, zero, suc, ◌+◌, ◌%◌, ◌^◌, ◌<◌, Bool, true, false, ◌&&◌, ◌||◌, Option, some, List, [], ◌∷◌,
  ◌++◌, length, All, ◌≡◌, ◌≢◌, refl, ap, ap₂, sym, ◌∙◌, inl, inr, arith, ◌==◌, ◌!=◌, ltb,
  if◌then◌else◌, Bool-cases, subst,
}
use tp2_ronaldo_joaopedro.Machine.{add32, sub32}
use tp2_ronaldo_joaopedro.Console.{Input, kill_line, typed, put, type_byte, still, consoleintr}
use tp2_ronaldo_joaopedro.Console.Ring.{
  window, window-append, window-update, window-extend, but_last-window, length-window,
}
use tp2_ronaldo_joaopedro.Console.Lines.{
  edit_key, Holds, line_of, shorter-Holds, some_typed, none_typed, kill_line-Holds,
}

-- What a key comes to, by the line editor.
abbrev pub Edited : ℕ → Input → ℕ → ℕ → Option (Input × Bool) → Type 0
Edited c s a b o =
    (s' : Input) × (woken : Bool) × (a' : ℕ) × (b' : ℕ) × (o ≡ some (s', woken))
    × Holds s' a' b'
    × (line_of s' a' b' ≡ edit_key c (line_of s a b))

All-append : (P : ℕ → Type 0) (xs : List ℕ) (c : ℕ) → All P xs → P c → All P (xs ++ c ∷ [])
All-append P [] c h p = (p, tt)
All-append P (x ∷ xs) c h p = (h.0, All-append P xs c h.1 p)

module _ (s : Input) (a b c : ℕ) (h : Holds s a b) (room : a + b < 128) where
  index : s.e % 128 ≡ (s.w + b) % 2 ^ 32 % 128
  index = omega (arith, h.typing)

  line_extended : window (put c s).buf s.w (b + 1) ≡ window s.buf s.w b ++ c ∷ []
  line_extended =
      window-extend s.buf s.w b (s.e % 128) c (omega (arith, h.ready)) (omega (arith, room)) index

  ready_kept : window (put c s).buf s.r a ≡ window s.buf s.r a
  ready_kept =
      window-update s.buf s.r a b (s.e % 128) c (omega (arith, room))
        (omega (arith, h.typing, h.ready))

  -- The byte joins the line.
  joined-Holds : c ≢ b'\n' → Holds (put c s) a (b + 1)
  joined-Holds plain = record {
    word = h.word;
    ready = h.ready;
    typing = omega (arith, h.typing, h.ready);
    fits = omega (arith, room);
    plain =
        subst (All (λ x. x ≢ b'\n')) (sym line_extended)
          (All-append (λ x. x ≢ b'\n') (window s.buf s.w b) c h.plain plain);
  }

  joined-line :
      line_of (put c s) a (b + 1)
      ≡ record { ready = window s.buf s.r a; edit = window s.buf s.w b ++ c ∷ [] }
  joined-line = λ i. record { ready = ready_kept i; edit = line_extended i }

  -- The byte completes the line.
  completed-Holds : Holds (record (put c s) { w = add32 s.e 1 }) (a + (b + 1)) 0
  completed-Holds = record {
    word = h.word;
    ready = omega (arith, h.typing, h.ready);
    typing = omega arith;
    fits = omega (arith, room);
    plain = tt;
  }

  completed-line :
      line_of (record (put c s) { w = add32 s.e 1 }) (a + (b + 1)) 0
      ≡ record { ready = window s.buf s.r a ++ (window s.buf s.w b ++ c ∷ []); edit = [] }
  completed-line =
      let there : (s.r + a) % 2 ^ 32 ≡ s.w = sym h.ready in
      ap (λ l. record { ready = l; edit = [] })
        (window-append (put c s).buf s.r a (b + 1) h.word
          ∙ ap₂ (λ x y. x ++ y) ready_kept
              (ap (λ x. window (put c s).buf x (b + 1)) there ∙ line_extended))

type_byte-Edited :
    (c a b : ℕ) (s : Input)
    → Holds s a b
    → (c == 16) ≡ false
    → (c == 21) ≡ false
    → ((c == 8) || (c == 127)) ≡ false
    → Edited c s a b (some (type_byte c s))
unfolding type_byte
type_byte-Edited c a b s h not_list not_kill not_back =
    let held : length (window s.buf s.r a) + length (window s.buf s.w b) ≡ a + b =
      omega (arith, length-window s.buf s.r a, length-window s.buf s.w b) in
    let used : sub32 s.e s.r ≡ a + b = omega (arith, h.typing, h.ready, h.fits, h.word) in
    let full : (add32 s.e 1 == add32 s.r 128) ≡ (a + b == 127) =
      ground (arith, h.typing, h.ready, h.fits, h.word) in
    elim (Bool-cases ((c != 0) && ltb (a + b) 128)) [
      | inr refused ↦ (
        s,
        false,
        a,
        b,
        rw (used, refused) refl,
        h,
        rw (not_list, not_kill, not_back, held, refused) refl,
      )
      | inl fits ↦
          let room : a + b < 128 = ground (arith, fits) in
          elim (Bool-cases ((typed c == b'\n') || (typed c == 4) || (a + b == 127))) [
            | inl complete ↦ (
              record (put (typed c) s) { w = add32 s.e 1 },
              true,
              a + (b + 1),
              0,
              rw (used, fits, full, complete) refl,
              completed-Holds s a b (typed c) h room,
              completed-line s a b (typed c) h room
                  ∙ rw (not_list, not_kill, not_back, held, fits, complete) refl,
            )
            | inr goes_on ↦ (
              put (typed c) s,
              false,
              a,
              b + 1,
              rw (used, fits, full, goes_on) refl,
              joined-Holds s a b (typed c) h room (λ e. absurd (ground (arith, goes_on, e))),
              joined-line s a b (typed c) h room
                  ∙ rw (not_list, not_kill, not_back, held, fits, goes_on) refl,
            )
          ]
    ]

-- A byte at the console, where the ring holds bytes for readers and a line without a newline, at most
-- 128 together: consoleintr comes to an end with a ring that holds what the line editor makes of
-- them. ^U drops the line, a backspace its last byte; another byte joins the line while there is
-- room, and a newline, ^D or a full ring hands the whole line to the readers. No byte that waits is lost or
-- overwritten.
pub consoleintr-Edited : (c a b : ℕ) (s : Input) → Holds s a b → Edited c s a b (consoleintr c s)
unfolding consoleintr
consoleintr-Edited c a b s h = elim (Bool-cases (c == 16)) [
  | inl list ↦
      let e : consoleintr c s ≡ some (s, false) = rw list refl in
      (s, false, a, b, e, h, rw list refl)
  | inr not_list ↦ elim (Bool-cases (c == 21)) [
    | inl kill ↦
        let e : consoleintr c s ≡ still (kill_line 129 s) = rw (not_list, kill) refl in
        (
          record s { e = s.w },
          false,
          a,
          0,
          e ∙ ap still (kill_line-Holds 129 a b s (omega (arith, h.fits)) h),
          record {
            word = h.word;
            ready = h.ready;
            typing = omega (arith, h.ready);
            fits = omega (arith, h.fits);
            plain = tt;
          },
          rw (not_list, kill) refl,
        )
    | inr not_kill ↦ elim (Bool-cases ((c == 8) || (c == 127))) [
      | inl back ↦
          let e : consoleintr c s
              ≡ some (if s.e != s.w then record s { e = sub32 s.e 1 } else s, false) =
            rw (not_list, not_kill, back) refl in
          subst (Edited c s a b) (sym e) (backspace b h not_list not_kill back)
      | inr byte ↦
          let e : consoleintr c s ≡ some (type_byte c s) = rw (not_list, not_kill, byte) refl in
          subst (Edited c s a b) (sym e) (type_byte-Edited c a b s h not_list not_kill byte)
    ]
  ]
]
  where
    backspace :
        (b : ℕ)
        → Holds s a b
        → (c == 16) ≡ false
        → (c == 21) ≡ false
        → ((c == 8) || (c == 127)) ≡ true
        → Edited c s a b (some (if s.e != s.w then record s { e = sub32 s.e 1 } else s, false))
    backspace zero h not_list not_kill back =
        let done : (s.e != s.w) ≡ false = ground (arith, none_typed s a h) in
        rw done (s, false, a, 0, refl, h, rw (not_list, not_kill, back) refl)
    backspace (suc b) h not_list not_kill back = rw (some_typed s a b h) (
      record s { e = sub32 s.e 1 },
      false,
      a,
      b,
      refl,
      shorter-Holds s a b h,
      rw (not_list, not_kill, back)
          (ap (λ l. record { ready = window s.buf s.r a; edit = l })
            (sym (but_last-window s.buf s.w b))),
    )
