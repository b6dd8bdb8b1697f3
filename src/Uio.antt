-- ===== src/Uio.antt =====
-- The caller's buffer, `uio_t`, as far as the file system sees it: the offset, the room that is left
-- and what has been moved into it. `uiomove` and its kin belong to XNU; `uiomove` is a parameter of
-- everything that uses it, and the predicates below are its documented behaviour.
use m_sl_sys_fs.Base.{ℕ, ◌+◌, ◌-◌, ◌≤◌, ◌≡◌, List, [], ◌∷◌, ◌++◌, min, length, take}
use m_sl_sys_fs.Types.{efault}

-- The items are the bytes of a file, or the entries of a directory.
pub record UioOf (A : Type 0) : Type 0 where
  pub offset : ℕ  -- off_t, never negative here
  pub resid : ℕ
  pub moved : List A

-- `uiomove(data, n, uio)`: an error number and the buffer afterwards.
abbrev pub Uiomove : Type 0 → Type 0
Uiomove A = List A → ℕ → UioOf A → ℕ × UioOf A

-- A move of bytes into mapped memory takes as many as fit and advances the offset by them.
abbrev pub MovesBytes : Uiomove ℕ → Type 0
MovesBytes move =
    (bytes : List ℕ) (n : ℕ) (u : UioOf ℕ)
    → n ≤ length bytes
    → move bytes n u ≡ (
      0,
      record {
        offset = u.offset + min n u.resid;
        resid = u.resid - min n u.resid;
        moved = u.moved ++ take (min n u.resid) bytes;
      },
    )

-- A move of one record of `n` bytes that fits moves the whole record.
abbrev pub MovesRecords : {A : Type 0} → Uiomove A → Type 0
MovesRecords {A} move =
    (a : A) (n : ℕ) (u : UioOf A)
    → n ≤ u.resid
    → move (a ∷ []) n u
      ≡ (0, record { offset = u.offset + n; resid = u.resid - n; moved = u.moved ++ a ∷ [] })

-- A buffer that meets both, for tests.
abbrev pub move_bytes : Uiomove ℕ
move_bytes bytes n u = (
  0,
  record {
    offset = u.offset + min n u.resid;
    resid = u.resid - min n u.resid;
    moved = u.moved ++ take (min n u.resid) bytes;
  },
)

abbrev pub move_record : {A : Type 0} → Uiomove A
move_record bytes n u =
    (0, record { offset = u.offset + n; resid = u.resid - n; moved = u.moved ++ bytes })

-- A buffer in unmapped memory.
abbrev pub move_fault : {A : Type 0} → Uiomove A
move_fault bytes n u = (efault, u)
