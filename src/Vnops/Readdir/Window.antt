-- ===== src/Vnops/Readdir/Window.antt =====
-- What one readdir loop emits: the longest run of entries, from the caller's offset on, that fits
-- into the caller's buffer.
use m_sl_sys_fs.Base.{
  tests, ℕ, suc, ◌+◌, ◌-◌, ◌≤◌, ◌<◌, ◌≡◌, Bool, true, false, List, [], ◌∷◌, ◌++◌, Bytes, arith, leb,
  ◌==◌, if◌then◌else◌, length, take, drop, Bool-cases, inl, inr, append_assoc, append-nil, ◌&&◌,
  not, lt_of_leb, le→leb, lt→leb, ap, sym, ◌∙◌,
}
use m_sl_sys_fs.Uio.{Uiomove, MovesRecords}
use m_sl_sys_fs.Vnops.Dirent.{
  Entry, Dirent, Cursor, put_entry, copyout_dirent, calc_dirent_size, to_dirent,
}
use m_sl_sys_fs.Vnops.Readdir.{emit}

-- The room that a list of entries takes.
abbrev pub sizes : List Entry → ℕ
sizes [] = 0
sizes (e ∷ es) = calc_dirent_size e.name + sizes es

-- The entries as they are copied out when the first stands at `pos`.
abbrev pub dirents : ℕ → List Entry → List Dirent
dirents pos [] = []
dirents pos (e ∷ es) =
    to_dirent e (calc_dirent_size e.name) (pos + calc_dirent_size e.name)
    ∷ dirents (pos + calc_dirent_size e.name) es

-- How many entries fit into `room`.
unfoldable pub fitting : ℕ → List Entry → ℕ
fitting room [] = 0
fitting room (e ∷ es) =
    let n = fitting (room - calc_dirent_size e.name) es in
    if leb (calc_dirent_size e.name) room then suc n else 0

pub size_pos : (name : Bytes) → 32 ≤ calc_dirent_size name
unfolding calc_dirent_size
size_pos name = omega arith

-- The cursor after `es` has been copied out behind it.
abbrev pub advance : Cursor → List Entry → Cursor
advance c es = record c {
  uio = record {
    offset = c.uio.offset + sizes es;
    resid = c.uio.resid - sizes es;
    moved = c.uio.moved ++ dirents c.nextpos es;
  };
  nextpos = c.nextpos + sizes es;
  numentries = c.numentries + length es;
}

-- The cursor after one entry.
abbrev pub past : Cursor → Entry → Cursor
past c e = record c {
  uio = record {
    offset = c.uio.offset + calc_dirent_size e.name;
    resid = c.uio.resid - calc_dirent_size e.name;
    moved =
        c.uio.moved
        ++ to_dirent e (calc_dirent_size e.name) (c.nextpos + calc_dirent_size e.name) ∷ [];
  };
  nextpos = c.nextpos + calc_dirent_size e.name;
  numentries = c.numentries + 1;
}

-- A cursor in a loop that has met no error.
pub record IsRunning (c : Cursor) : Type 0 where
  pub no_error : c.error ≡ 0
  pub going : c.halted ≡ false

module _ (move : Uiomove Dirent) (moves : MovesRecords move) (start : ℕ) where
  pub put_fits :
      (e : Entry) (c : Cursor)
      → IsRunning c
      → start ≤ c.nextpos
      → calc_dirent_size e.name ≤ c.uio.resid
      → put_entry move start e c ≡ past c e
  unfolding put_entry copyout_dirent
  put_fits e c r h fits = ground (
    arith,
    size_pos e.name,
    moves (to_dirent e (calc_dirent_size e.name) (c.nextpos + calc_dirent_size e.name))
        (calc_dirent_size e.name) c.uio,
  )

  pub put_full :
      (e : Entry) (c : Cursor)
      → IsRunning c
      → start ≤ c.nextpos
      → c.uio.resid < calc_dirent_size e.name
      → put_entry move start e c ≡ record c { halted = true }
  unfolding put_entry copyout_dirent
  put_full e c r h full = ground arith

  pub put_skip :
      (e : Entry) (c : Cursor)
      → c.nextpos < start
      → put_entry move start e c ≡ record c { nextpos = c.nextpos + calc_dirent_size e.name }
  unfolding put_entry
  put_skip e c h = ground arith

advance-past :
    (c : Cursor) (e : Entry) (es : List Entry) → advance (past c e) es ≡ advance c (e ∷ es)
advance-past c e es =
    let s : ℕ = calc_dirent_size e.name in
    let d : Dirent = to_dirent e s (c.nextpos + s) in
    ground (arith, append_assoc c.uio.moved (d ∷ []) (dirents (c.nextpos + s) es))

abbrev pub not_nil : List Entry → Bool
not_nil [] = false
not_nil (e ∷ es) = true

-- The cursor at the end of a loop over `es`, and the entries that are left.
abbrev pub window : Cursor → List Entry → Cursor × List Entry
window c es =
    let m = fitting c.uio.resid es in
    let c' = advance c (take m es) in
    (record c' { halted = not_nil (drop m es) && not (c'.uio.resid == 0) }, drop m es)

window_fits :
    (e : Entry) (es : List Entry) (c : Cursor)
    → calc_dirent_size e.name ≤ c.uio.resid
    → window c (e ∷ es) ≡ window (past c e) es
unfolding fitting
window_fits e es c fits =
    let m : ℕ = fitting (c.uio.resid - calc_dirent_size e.name) es in
    rw (le→leb (calc_dirent_size e.name) c.uio.resid fits) (
      ap
        (λ (d : Cursor).
          (record d { halted = not_nil (drop m es) && not (d.uio.resid == 0) }, drop m es))
        (sym (advance-past c e (take m es))))

window_full :
    (e : Entry) (es : List Entry) (c : Cursor)
    → c.uio.resid < calc_dirent_size e.name
    → window c (e ∷ es) ≡ (record c { halted = not (c.uio.resid == 0) }, e ∷ es)
unfolding fitting
window_full e es c full =
    rw (lt→leb (calc_dirent_size e.name) c.uio.resid full) (ground (arith, append-nil c.uio.moved))

module _ (move : Uiomove Dirent) (moves : MovesRecords move) (start : ℕ) where
  emit_fits :
      (e : Entry) (es : List Entry) (c : Cursor)
      → IsRunning c
      → start ≤ c.nextpos
      → calc_dirent_size e.name ≤ c.uio.resid
      → emit move start (e ∷ es) c ≡ emit move start es (past c e)
  unfolding emit
  emit_fits e es c r h fits =
      ground (arith, put_fits move moves start e c r h fits, size_pos e.name)

  emit_full :
      (e : Entry) (es : List Entry) (c : Cursor)
      → IsRunning c
      → start ≤ c.nextpos
      → c.uio.resid < calc_dirent_size e.name
      → emit move start (e ∷ es) c ≡ (record c { halted = not (c.uio.resid == 0) }, e ∷ es)
  unfolding emit
  emit_full e es c r h full = ground (arith, put_full move moves start e c r h full)

  -- From the caller's offset on, a loop copies out the entries that fit, in order, each with the
  -- offset behind it, and leaves the rest.
  pub emit-window :
      (es : List Entry) (c : Cursor)
      → IsRunning c
      → start ≤ c.nextpos
      → emit move start es c ≡ window c es
  emit-window [] c r h = unfold emit fitting in ground (arith, append-nil c.uio.moved)
  emit-window (e ∷ es) c r h = elim (Bool-cases (leb (calc_dirent_size e.name) c.uio.resid)) [
    | inl fits ↦
        let le : calc_dirent_size e.name ≤ c.uio.resid = grind tests in
        emit_fits e es c r h le
        ∙ emit-window es (past c e) (record { no_error = r.no_error; going = r.going })
            (omega arith)
        ∙ sym (window_fits e es c le)
    | inr full ↦
        let lt : c.uio.resid < calc_dirent_size e.name = lt_of_leb _ c.uio.resid full in
        emit_full e es c r h lt ∙ sym (window_full e es c lt)
  ]

  -- Entries before the caller's offset are passed over, as long as there is room for one byte.
  pub emit-skip :
      (done rest : List Entry) (c : Cursor)
      → 0 < c.uio.resid
      → c.halted ≡ false
      → c.nextpos + sizes done ≡ start
      → emit move start (done ++ rest) c ≡ emit move start rest (record c { nextpos = start })
  unfolding emit
  emit-skip [] rest c room going e =
      ap (λ n. emit move start rest (record c { nextpos = n })) (omega arith)
  emit-skip (d ∷ done) rest c room going e = ground (
    arith,
    size_pos d.name,
    put_skip move moves start d c,
    emit-skip done rest (record c { nextpos = c.nextpos + calc_dirent_size d.name }),
  )
