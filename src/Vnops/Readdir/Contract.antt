-- ===== src/Vnops/Readdir/Contract.antt =====
-- What a readdir of kext/sysfs_vnops.c promises for one call, from any offset that an earlier entry
-- handed out.
use m_sl_sys_fs.Base.{
  ℕ, zero, suc, ◌+◌, ◌-◌, ◌<◌, ◌≡◌, refl, Bool, true, false, List, [], ◌∷◌, ◌++◌, arith, ◌==◌,
  if◌then◌else◌, Bool-cases, inl, inr, ◌&&◌, ap, take, drop, length,
}
use m_sl_sys_fs.Types.{einval}
use m_sl_sys_fs.Uio.{UioOf, Uiomove, MovesRecords}
use m_sl_sys_fs.Vnops.Dirent.{Entry, Dirent, Cursor, calc_dirent_size}
use m_sl_sys_fs.Vnops.Readdir.{Listing, start_cursor, finish, emit}
use m_sl_sys_fs.Vnops.Readdir.Window.{
  not_nil, sizes, dirents, fitting, window, emit-window, emit-skip,
}
use m_sl_sys_fs.Vnops.Readdir.Phases.{saw_end}
use m_sl_sys_fs.Vnops.Readdir.Whole.{close, all_done, IsCareful}

-- One call on a buffer `uio`, when `rest` is what stands at and behind its offset.
pub record Listed (rest : List Entry) (uio : UioOf Dirent) (l : Listing) : Type 0 where
  pub error_is : l.error ≡ (if (fitting uio.resid rest == 0) && not_nil rest then einval else 0)
  pub copies : l.uio ≡ record {
    offset = uio.offset + sizes (take (fitting uio.resid rest) rest);
    resid = uio.resid - sizes (take (fitting uio.resid rest) rest);
    moved = uio.moved ++ dirents uio.offset (take (fitting uio.resid rest) rest);
  }
  pub counts : l.numdirent ≡ fitting uio.resid rest
  pub eof_sound : l.eofflag ≡ true → drop (fitting uio.resid rest) rest ≡ []
  pub eof_complete :
      drop (fitting uio.resid rest) rest ≡ []
      → sizes (take (fitting uio.resid rest) rest) < uio.resid
      → l.eofflag ≡ true

-- A readdir of a directory with the entries `all`.
abbrev pub Lists : (UioOf Dirent → Listing) → List Entry → Type 0
Lists readdir all =
    (done rest : List Entry) (uio : UioOf Dirent)
    → all ≡ done ++ rest
    → sizes done ≡ uio.offset
    → 0 < uio.resid
    → Listed rest uio (readdir uio)

-- A flag that is set at the end if room is left.
abbrev pub IsPrompt : (Cursor × List Entry → Bool) → Type 0
IsPrompt eof = (r : Cursor × List Entry) → not_nil r.1 ≡ false → 0 < r.0.uio.resid → eof r ≡ true

pub saw_end-IsPrompt : IsPrompt saw_end
saw_end-IsPrompt r e h = ground arith

pub all_done-IsPrompt : IsPrompt all_done
all_done-IsPrompt (c, []) e h = refl
all_done-IsPrompt (c, x ∷ xs) e h = ground arith

fitting-length : (room : ℕ) (es : List Entry) → length (take (fitting room es) es) ≡ fitting room es
unfolding fitting
fitting-length room [] = refl
fitting-length room (e ∷ es) =
    let rest = fitting-length (room - calc_dirent_size e.name) es in ground (arith, rest)

nil_of : (es : List Entry) → not_nil es ≡ false → es ≡ []
nil_of [] e = refl
nil_of (x ∷ es) e = ground arith

nothing_fits :
    (m : ℕ) (rest : List Entry)
    → (m == 0) ≡ true
    → (not_nil (drop m rest) ≡ not_nil rest) × (sizes (take m rest) ≡ 0)
nothing_fits zero rest e = (refl, refl)
nothing_fits (suc m) rest e = ground arith

-- A loop that has passed over all entries before the offset.
abbrev whole : UioOf Dirent → Cursor
whole uio = record { uio = uio; nextpos = uio.offset; numentries = 0; error = 0; halted = false }

module _ (move : Uiomove Dirent) (moves : MovesRecords move) where
  close-Listed :
      (eof : Cursor × List Entry → Bool)
      → IsCareful eof
      → IsPrompt eof
      → (rest : List Entry) (uio : UioOf Dirent) → 0 < uio.resid
      → Listed rest uio (close eof (window (whole uio) rest))
  unfolding finish
  close-Listed eof careful prompt rest uio room = record {
    error_is = elim (Bool-cases (fitting uio.resid rest == 0)) [
      | inl z ↦
          let w = window (whole uio) rest in
          let n = nothing_fits (fitting uio.resid rest) rest z in
          ground (arith, n.0, n.1, careful w, prompt w, fitting-length uio.resid rest)
      | inr z ↦ ground (arith, fitting-length uio.resid rest)
    ];
    copies = refl;
    counts = omega (arith, fitting-length uio.resid rest);
    eof_sound = λ e. nil_of _ (elim (Bool-cases (not_nil (drop (fitting uio.resid rest) rest))) [
      | inl n ↦ ground (arith, careful (window (whole uio) rest))
      | inr n ↦ n
    ]);
    eof_complete = λ n fits. prompt (window (whole uio) rest) (ap not_nil n) (omega arith);
  }

  pub close-Lists :
      (eof : Cursor × List Entry → Bool)
      → IsCareful eof
      → IsPrompt eof
      → (all : List Entry)
      → Lists (λ uio. close eof (emit move uio.offset all (start_cursor uio))) all
  close-Lists eof careful prompt all done rest uio split at room =
      rw
        (
          split,
          emit-skip move moves uio.offset done rest (start_cursor uio) room refl (omega arith),
        )
        (rw
          (emit-window move moves uio.offset rest (whole uio)
            (record { no_error = refl; going = refl }) (omega arith))
          (close-Listed eof careful prompt rest uio room))
