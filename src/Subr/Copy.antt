-- ===== src/Subr/Copy.antt =====
-- Reading a file piece by piece through `sysfs_copy_data`.
use m_sl_sys_fs.Base.{
  tests, ℕ, zero, suc, ◌+◌, ◌-◌, ◌≤◌, ◌<◌, ◌≡◌, refl, sym, ◌++◌, [], ◌∷◌, Bytes, length, drop, take,
  min, arith, leb, Bool-cases, inl, inr, ap, ◌∙◌, lt→leb, le→leb, drop-drop, length-drop,
  take-append-drop, drop_all,
}
use m_sl_sys_fs.Uio.{Uiomove, UioOf, MovesBytes}
use m_sl_sys_fs.Subr.{copy_data}

-- A read(2) loop: buffers of `chunk` bytes until a call returns nothing.
pub read_all : (UioOf ℕ → ℕ × UioOf ℕ) → ℕ → ℕ → ℕ → Bytes
read_all read chunk zero offset = []
read_all read chunk (suc fuel) offset =
    let r = (read (record { offset = offset; resid = chunk; moved = [] })).1 in
    let rest = read_all read chunk fuel r.offset in
    elim r.moved [ [] ↦ [] | b ∷ bs ↦ (b ∷ bs) ++ rest ]

-- The round that reads `piece`, and the rounds after it.
abbrev pub joined : Bytes → Bytes → Bytes
joined piece rest = elim piece [ [] ↦ [] | b ∷ bs ↦ (b ∷ bs) ++ rest ]

read_all_step :
    (read : UioOf ℕ → ℕ × UioOf ℕ) (chunk fuel offset : ℕ) {r : ℕ × UioOf ℕ}
    → read (record { offset = offset; resid = chunk; moved = [] }) ≡ r
    → read_all read chunk (suc fuel) offset ≡ joined r.1.moved (read_all read chunk fuel r.1.offset)
unfolding read_all
read_all_step read chunk fuel offset e =
    ap (λ (q : ℕ × UioOf ℕ). joined q.1.moved (read_all read chunk fuel q.1.offset)) e

joined-take : (m : ℕ) (bytes : Bytes) → 0 < m → joined (take m bytes) (drop m bytes) ≡ bytes
joined-take zero bytes h = absurd (omega arith)
joined-take (suc m) [] h = refl
joined-take (suc m) (b ∷ bs) h = ap (λ l. b ∷ l) (take-append-drop m bs)

module _ (move : Uiomove ℕ) (moves : MovesBytes move) (bytes : Bytes) where
  -- One call below the end: the bytes from the offset on, as many as fit.
  pub copy_data_within :
      (u : UioOf ℕ)
      → u.offset < length bytes
      → copy_data move bytes (length bytes) u ≡ (
        0,
        record {
          offset = u.offset + min (length bytes - u.offset) u.resid;
          resid = u.resid - min (length bytes - u.offset) u.resid;
          moved = u.moved ++ take (min (length bytes - u.offset) u.resid) (drop u.offset bytes);
        },
      )
  unfolding copy_data
  copy_data_within u h = rw (lt→leb (length bytes) u.offset h) (
      moves (drop u.offset bytes) (length bytes - u.offset) u
        (omega (arith, length-drop u.offset bytes)))

  pub copy_data_past :
      (u : UioOf ℕ) → length bytes ≤ u.offset → copy_data move bytes (length bytes) u ≡ (0, u)
  unfolding copy_data
  copy_data_past u h = rw (le→leb (length bytes) u.offset h)

  read_all_from :
      (chunk fuel offset : ℕ)
      → 0 < chunk
      → length bytes - offset < fuel
      → read_all (copy_data move bytes (length bytes)) chunk fuel offset ≡ drop offset bytes
  read_all_from chunk zero offset c h = absurd (omega arith)
  read_all_from chunk (suc fuel) offset c h = elim (Bool-cases (leb (length bytes) offset)) [
    | inl past ↦
        let le : length bytes ≤ offset = grind tests in
        let u : UioOf ℕ = record { offset = offset; resid = chunk; moved = [] } in
        read_all_step (copy_data move bytes (length bytes)) chunk fuel offset (copy_data_past u le)
        ∙ sym (drop_all offset bytes le)
    | inr more ↦
        let lt : offset < length bytes = grind tests in
        let u : UioOf ℕ = record { offset = offset; resid = chunk; moved = [] } in
        let m : ℕ = min (length bytes - offset) chunk in
        read_all_step (copy_data move bytes (length bytes)) chunk fuel offset
          (copy_data_within u lt)
        ∙ ap (joined (take m (drop offset bytes)))
            (read_all_from chunk fuel (offset + m) c (omega arith) ∙ sym (drop-drop m offset bytes))
        ∙ joined-take m (drop offset bytes) (omega arith)
  ]

  -- Reads of any positive size, repeated to the end of the file, give exactly the content: no byte
  -- is lost, repeated or moved, and one call more than the content has bytes is enough.
  pub read_all-copy_data :
      (chunk fuel : ℕ)
      → 0 < chunk
      → length bytes < fuel
      → read_all (copy_data move bytes (length bytes)) chunk fuel 0 ≡ bytes
  read_all-copy_data chunk fuel c h = read_all_from chunk fuel 0 c (omega arith)
