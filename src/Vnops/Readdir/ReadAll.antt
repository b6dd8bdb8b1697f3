-- ===== src/Vnops/Readdir/ReadAll.antt =====
-- A caller of `sysfs_vnop_readdir` (kext/sysfs_vnops.c) who goes on from the offset of the last call
-- until the end is reported.
use m_sl_sys_fs.Base.{
  ℕ, zero, suc, ◌+◌, ◌≤◌, ◌<◌, ◌≡◌, refl, false, List, [], ◌∷◌, ◌++◌, arith, le→leb, if◌then◌else◌,
  Bool-cases, inl, inr, ap, sym, ◌∙◌, take, drop, length, length-drop, All, take-append-drop,
  append_assoc, append-nil,
}
use m_sl_sys_fs.Types.{Sfsnode}
use m_sl_sys_fs.Structure.{Structure}
use m_sl_sys_fs.Iokit.{Iokit}
use m_sl_sys_fs.Uio.{UioOf, Uiomove, MovesRecords}
use m_sl_sys_fs.Vnops.Dirent.{Entry, Dirent, to_dirent, calc_dirent_size}
use m_sl_sys_fs.Vnops.Readdir.{Listing}
use m_sl_sys_fs.Vnops.Readdir.Window.{sizes, dirents, fitting}
use m_sl_sys_fs.Vnops.Readdir.Contract.{Listed, Lists}
use m_sl_sys_fs.Vnops.Readdir.Ops.{dir_readdir}
use m_sl_sys_fs.Vnops.Readdir.Pages.{View, Shows, entries, dir_readdir-Lists}

abbrev pub empty_buffer : ℕ → ℕ → UioOf Dirent
empty_buffer room offset = record { offset = offset; resid = room; moved = [] }

-- What the caller collects in at most `fuel` calls with a buffer of `room` bytes.
abbrev pub read_pages : (UioOf Dirent → Listing) → ℕ → ℕ → ℕ → List Dirent
read_pages readdir room zero offset = []
read_pages readdir room (suc fuel) offset =
    let l : Listing = readdir (empty_buffer room offset) in
    let rest = read_pages readdir room fuel l.uio.offset in
    l.uio.moved ++ (if l.eofflag then [] else rest)

sizes-append : (xs ys : List Entry) → sizes (xs ++ ys) ≡ sizes xs + sizes ys
sizes-append [] ys = omega arith
sizes-append (x ∷ xs) ys = omega (arith, sizes-append xs ys)

dirents-append :
    (pos : ℕ) (xs ys : List Entry)
    → dirents pos (xs ++ ys) ≡ dirents pos xs ++ dirents (pos + sizes xs) ys
dirents-append pos [] ys = let z : pos + 0 ≡ pos = omega arith in ap (λ p. dirents p ys) (sym z)
dirents-append pos (x ∷ xs) ys =
    let p : ℕ = pos + calc_dirent_size x.name in
    let z : p + sizes xs ≡ pos + (calc_dirent_size x.name + sizes xs) = omega arith in
    ap (λ l. to_dirent x (calc_dirent_size x.name) p ∷ l)
      (dirents-append p xs ys ∙ ap (λ q. dirents p xs ++ dirents q ys) z)

-- A buffer that has room for each entry takes at least one.
takes_one :
    (room : ℕ) (e : Entry) (es : List Entry)
    → calc_dirent_size e.name ≤ room
    → 0 < fitting room (e ∷ es)
unfolding fitting
takes_one room e es h = rw (le→leb _ room h) (omega arith)

abbrev pub HasRoom : ℕ → List Entry → Type 0
HasRoom room = All (λ e. calc_dirent_size e.name ≤ room)

HasRoom-drop : (room n : ℕ) (es : List Entry) → HasRoom room es → HasRoom room (drop n es)
HasRoom-drop room zero es h = h
HasRoom-drop room (suc n) [] h = h
HasRoom-drop room (suc n) (e ∷ es) h = HasRoom-drop room n es h.1

-- A call that does not report the end takes an entry.
shrinks :
    (room : ℕ) (rest : List Entry) (uio : UioOf Dirent) (l : Listing)
    → uio.resid ≡ room
    → 0 < room
    → HasRoom room rest
    → Listed rest uio l
    → l.eofflag ≡ false
    → length (drop (fitting uio.resid rest) rest) < length rest
shrinks room [] uio l r h fits listed e = unfold fitting in ground (arith, listed.eof_complete)
shrinks room (x ∷ xs) uio l r h fits listed e =
    let some_fit : 0 < fitting uio.resid (x ∷ xs) = takes_one uio.resid x xs (rw r fits.0) in
    omega (arith, some_fit, length-drop (fitting uio.resid (x ∷ xs)) (x ∷ xs))

module _ (readdir : UioOf Dirent → Listing) (all : List Entry) (lists : Lists readdir all)
    (room : ℕ) (positive : 0 < room) where
  read_pages-from :
      (fuel : ℕ) (done rest : List Entry)
      → all ≡ done ++ rest
      → HasRoom room rest
      → length rest < fuel
      → read_pages readdir room fuel (sizes done) ≡ dirents (sizes done) rest
  read_pages-from zero done rest split fits enough = ground arith
  read_pages-from (suc fuel) done rest split fits enough =
      let uio : UioOf Dirent = empty_buffer room (sizes done) in
      let l : Listed rest uio (readdir uio) = lists done rest uio split refl positive in
      let m : ℕ = fitting room rest in
      let halves : take m rest ++ drop m rest ≡ rest = take-append-drop m rest in
      let moved : (readdir uio).uio.moved ≡ dirents (sizes done) (take m rest) =
        ap (λ u. u.moved) l.copies in
      let offset : (readdir uio).uio.offset ≡ sizes (done ++ take m rest) =
        ap (λ u. u.offset) l.copies ∙ sym (sizes-append done (take m rest)) in
      elim (Bool-cases (readdir uio).eofflag) [
        | inl e ↦
            let taken : take m rest ≡ rest =
              sym (append-nil (take m rest))
              ∙ ap (λ r. take m rest ++ r) (sym (l.eof_sound e))
              ∙ halves in
            rw (moved, e) (append-nil _ ∙ ap (dirents (sizes done)) taken)
        | inr e ↦
            let ih : read_pages readdir room fuel (sizes (done ++ take m rest))
                ≡ dirents (sizes (done ++ take m rest)) (drop m rest) =
              read_pages-from fuel (done ++ take m rest) (drop m rest)
                (split
                  ∙ ap (λ r. done ++ r) (sym halves)
                  ∙ sym (append_assoc done (take m rest) (drop m rest)))
                (HasRoom-drop room m rest fits)
                (omega (arith, shrinks room rest uio (readdir uio) refl positive fits l e)) in
            rw (moved, e, offset, ih)
              (ap (λ p. dirents (sizes done) (take m rest) ++ dirents p (drop m rest))
                  (sizes-append done (take m rest))
                ∙ sym (dirents-append (sizes done) (take m rest) (drop m rest))
                ∙ ap (dirents (sizes done)) halves)
      ]

-- A caller whose buffer has room for each entry of a directory, and who goes on from the offset of
-- the last call until the end is reported, gets every entry once and in order, with the offset
-- behind it, in at most one call per entry and one more.
pub read_pages-Lists :
    (readdir : UioOf Dirent → Listing) (all : List Entry)
    → Lists readdir all
    → (room : ℕ) → 0 < room
    → HasRoom room all
    → read_pages readdir room (suc (length all)) 0 ≡ dirents 0 all
read_pages-Lists readdir all lists room positive fits =
    read_pages-from readdir all lists room positive (suc (length all)) [] all refl fits
      (omega arith)

-- Reading a directory with `sysfs_vnop_readdir` to the end, with a buffer that has room for each of
-- its entries and a registry whose queries by position answer from the lists of `v`, gives each entry
-- of the directory once and in order, in at most one call per entry and one more.
pub dir_readdir_complete :
    (move : Uiomove Dirent)
    → MovesRecords move
    → (io : Iokit) (v : View) → Shows io v
    → (st : Structure) (dir : Sfsnode) (room : ℕ) → 0 < room
    → HasRoom room (entries v st dir)
    → read_pages (dir_readdir move io st dir) room (suc (length (entries v st dir))) 0
      ≡ dirents 0 (entries v st dir)
dir_readdir_complete move moves io v shows st dir =
    read_pages-Lists _ _ (dir_readdir-Lists move moves io v st dir shows)
