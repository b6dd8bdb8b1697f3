-- ===== src/Vnops/Readdir/Phases.antt =====
-- How the loops of one readdir follow each other: together they are one loop over all entries.
use m_sl_sys_fs.Base.{
  tests, ℕ, zero, suc, ◌+◌, ◌-◌, ◌≤◌, ◌<◌, ◌≡◌, refl, Bool, true, false, Option, some, List, [],
  ◌∷◌, ◌++◌, arith, leb, ◌==◌, if◌then◌else◌, get_elem?, Bool-cases, inl, inr, ◌&&◌, ◌||◌, not, ap,
  sym, ◌∙◌,
}
use m_sl_sys_fs.Uio.{Uiomove, MovesRecords}
use m_sl_sys_fs.Vnops.Dirent.{Entry, Dirent, Cursor, put_entry, calc_dirent_size}
use m_sl_sys_fs.Vnops.Readdir.{emit, emit_dots, emit_queries}
use m_sl_sys_fs.Vnops.Readdir.Window.{
  IsRunning, not_nil, past, size_pos, put_fits, put_full, put_skip,
}

-- Whether a loop that left `rest` unhandled found the end: all is handled, and room was left to see
-- that there is nothing more.
abbrev pub saw_end : Cursor × List Entry → Bool
saw_end (c, rest) = not (not_nil rest) && not (c.uio.resid == 0)

-- What a loop leaves behind.
pub record Leaves (c : Cursor) (r : Cursor × List Entry) : Type 0 where
  pub no_error : r.0.error ≡ 0
  pub room : r.0.uio.resid ≤ c.uio.resid
  pub on : not_nil r.1 ≡ false → r.0.halted ≡ false
  pub stop : not_nil r.1 ≡ true → (r.0.halted || r.0.uio.resid == 0) ≡ true

carry_over :
    (c c' : Cursor) (r r' : Cursor × List Entry)
    → r ≡ r'
    → c'.uio.resid ≤ c.uio.resid
    → Leaves c' r'
    → Leaves c r
carry_over c c' r r' e le l = record {
  no_error = rw e l.no_error;
  room = rw e (omega (arith, l.room));
  on = rw e l.on;
  stop = rw e l.stop;
}

module _ (move : Uiomove Dirent) (start : ℕ) where
  pub emit_next :
      (e : Entry) (es : List Entry) (c c' : Cursor)
      → (c.uio.resid == 0) ≡ false
      → put_entry move start e c ≡ c'
      → c'.halted ≡ false
      → emit move start (e ∷ es) c ≡ emit move start es c'
  unfolding emit
  emit_next e es c c' z q h = rw (z, q, h) refl

  queries_next :
      (fuel i : ℕ) (at : ℕ → Option Entry) (e : Entry) (c c' : Cursor)
      → (c.uio.resid == 0) ≡ false
      → at i ≡ some e
      → put_entry move start e c ≡ c'
      → c'.halted ≡ false
      → emit_queries move start (suc fuel) at i c ≡ emit_queries move start fuel at (suc i) c'
  unfolding emit_queries
  queries_next fuel i at e c c' z a q h = rw (z, a, q, h) refl

  -- A loop over two lists is a loop over the first and, if that one is through, over the second.
  pub emit-append :
      (es fs : List Entry) (c : Cursor)
      → emit move start (es ++ fs) c ≡ (
          if not_nil (emit move start es c).1
          then ((emit move start es c).0, (emit move start es c).1 ++ fs)
          else emit move start fs (emit move start es c).0)
  unfolding emit
  emit-append [] fs c = refl
  emit-append (e ∷ es) fs c = ground (arith, emit-append es fs (put_entry move start e c))

module _ (at : ℕ → Option Entry) (i : ℕ) (e : Entry) (es : List Entry)
    (answers : (k : ℕ) → at (i + k) ≡ get_elem? (e ∷ es) k) where
  answers_first : at i ≡ some e
  answers_first = let z : i + 0 ≡ i = omega arith in ap at (sym z) ∙ answers 0

  answers_rest : (k : ℕ) → at (suc i + k) ≡ get_elem? es k
  answers_rest k = let z : i + suc k ≡ suc i + k = omega arith in ap at (sym z) ∙ answers (suc k)

module _ (move : Uiomove Dirent) (moves : MovesRecords move) (start : ℕ) where
  -- One round of a loop: the entry is passed over or copied out, or it ends the loop.
  pub data Round (e : Entry) (c : Cursor) : Type 0 where
    skips :
        c.nextpos < start
        → put_entry move start e c ≡ record c { nextpos = c.nextpos + calc_dirent_size e.name }
        → Round e c
    fits :
        start ≤ c.nextpos
        → calc_dirent_size e.name ≤ c.uio.resid
        → put_entry move start e c ≡ past c e
        → Round e c
    full :
        start ≤ c.nextpos
        → c.uio.resid < calc_dirent_size e.name
        → put_entry move start e c ≡ record c { halted = true }
        → Round e c

  pub round : (e : Entry) (c : Cursor) → IsRunning c → Round e c
  round e c r = elim (Bool-cases (leb start c.nextpos)) [
    | inr lt ↦ let l : c.nextpos < start = grind tests in skips l (put_skip move moves start e c l)
    | inl le ↦ elim (Bool-cases (leb (calc_dirent_size e.name) c.uio.resid)) [
      | inl h ↦
          let s : start ≤ c.nextpos = grind tests in
          let f : calc_dirent_size e.name ≤ c.uio.resid = grind tests in
          fits s f (put_fits move moves start e c r s f)
      | inr h ↦
          let s : start ≤ c.nextpos = grind tests in
          let f : c.uio.resid < calc_dirent_size e.name = grind tests in
          full s f (put_full move moves start e c r s f)
    ]
  ]

  pub emit-Leaves : (es : List Entry) (c : Cursor) → IsRunning c → Leaves c (emit move start es c)
  unfolding emit
  emit-Leaves [] c r = record {
    no_error = r.no_error;
    room = omega arith;
    on = λ _. r.going;
    stop = λ h. ground arith;
  }
  emit-Leaves (e ∷ es) c r = elim (Bool-cases (c.uio.resid == 0)) [
    | inl z ↦ rw z (record {
      no_error = r.no_error;
      room = omega arith;
      on = λ h. ground arith;
      stop = λ _. ground arith;
    })
    | inr z ↦ elim (round e c r) [
      | skips l q ↦
          let c' : Cursor = record c { nextpos = c.nextpos + calc_dirent_size e.name } in
          let r' : IsRunning c' = record { no_error = r.no_error; going = r.going } in
          carry_over c c' _ _ (emit_next move start e es c c' z q r.going) (omega arith)
            (emit-Leaves es c' r')
      | fits s f q ↦
          let r' : IsRunning (past c e) = record { no_error = r.no_error; going = r.going } in
          carry_over c (past c e) _ _ (emit_next move start e es c (past c e) z q r.going)
            (omega arith) (emit-Leaves es (past c e) r')
      | full s f q ↦
          rw (z, q)
            (record {
              no_error = r.no_error;
              room = omega arith;
              on = λ h. ground arith;
              stop = λ _. refl;
            })
    ]
  ]

  -- The dots are written by a loop that does not stop when the room is used up, but with the
  -- next entry.
  pub emit_dots-emit :
      (es : List Entry) (c : Cursor)
      → IsRunning c
      → (leb start c.nextpos || not (c.uio.resid == 0)) ≡ true
      → emit_dots move start es c
        ≡ record ((emit move start es c).0) { halted = not_nil (emit move start es c).1 }
  unfolding emit emit_dots
  emit_dots-emit [] c r ready = ground arith
  emit_dots-emit (e ∷ es) c r ready = elim (round e c r) [
    | skips l q ↦ ground (
      arith,
      size_pos e.name,
      emit_dots-emit es (record c { nextpos = c.nextpos + calc_dirent_size e.name })
          (record { no_error = r.no_error; going = r.going }),
    )
    | fits s f q ↦ ground (
      arith,
      size_pos e.name,
      emit_dots-emit es (past c e) (record { no_error = r.no_error; going = r.going }),
    )
    | full s f q ↦ ground (arith, size_pos e.name)
  ]

  -- A loop over queries is a loop over the list of their answers, and with the fuel it is given it
  -- gets to the end of it.
  pub emit_queries-emit :
      (fuel : ℕ) (at : ℕ → Option Entry) (i : ℕ) (es : List Entry) (c : Cursor)
      → ((k : ℕ) → at (i + k) ≡ get_elem? es k)
      → (start - c.nextpos) + c.uio.resid < fuel
      → IsRunning c
      → emit_queries move start fuel at i c
        ≡ ((emit move start es c).0, saw_end (emit move start es c))
  unfolding emit emit_queries
  emit_queries-emit zero at i es c answers enough r = ground arith
  emit_queries-emit (suc fuel) at i [] c answers enough r = ground (arith, answers 0)
  emit_queries-emit (suc fuel) at i (e ∷ es) c answers enough r =
      let a : at i ≡ some e = answers_first at i e es answers in
      let rest : (k : ℕ) → at (suc i + k) ≡ get_elem? es k = answers_rest at i e es answers in
      let size = size_pos e.name in
      elim (Bool-cases (c.uio.resid == 0)) [
        | inl z ↦ rw z refl
        | inr z ↦ elim (round e c r) [
          | skips l q ↦
              let c' : Cursor = record c { nextpos = c.nextpos + calc_dirent_size e.name } in
              let r' : IsRunning c' = record { no_error = r.no_error; going = r.going } in
              queries_next move start fuel i at e c c' z a q r.going
              ∙ emit_queries-emit fuel at (suc i) es c' rest (omega arith) r'
              ∙ ap (λ x. (x.0, saw_end x)) (sym (emit_next move start e es c c' z q r.going))
          | fits s f q ↦
              let r' : IsRunning (past c e) = record { no_error = r.no_error; going = r.going } in
              queries_next move start fuel i at e c (past c e) z a q r.going
              ∙ emit_queries-emit fuel at (suc i) es (past c e) rest (omega arith) r'
              ∙ ap (λ x. (x.0, saw_end x))
                  (sym (emit_next move start e es c (past c e) z q r.going))
          | full s f q ↦ rw (z, a, q) refl
        ]
      ]
