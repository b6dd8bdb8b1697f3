-- ===== src/Vnops/Dirent.antt =====
-- Directory entries of kext/sysfs_vnops.c: their size, their copying out, and the piece of code that
-- every readdir loop repeats for an entry.
use m_sl_sys_fs.Base.{
  ℕ, ◌+◌, ◌*◌, ◌/◌, ◌%◌, ◌^◌, Bool, true, false, ◌||◌, [], ◌∷◌, Bytes, length, leb, ◌==◌,
  if◌then◌else◌,
}
use m_sl_sys_fs.Uio.{UioOf, Uiomove}

-- What a loop knows of an entry before it is copied out: DT_* type, file id and name.
pub record Entry : Type 0 where
  pub dtype : ℕ
  pub ino : ℕ
  pub name : Bytes

-- `struct direntry`, its name without the padding
pub record Dirent : Type 0 where
  pub d_ino : ℕ
  pub d_seekoff : ℕ
  pub d_reclen : ℕ  -- uint16_t
  pub d_namlen : ℕ  -- uint16_t
  pub d_type : ℕ
  pub d_name : Bytes

abbrev pub dt_dir : ℕ
dt_dir = 4

abbrev pub dt_reg : ℕ
dt_reg = 8

abbrev pub dt_lnk : ℕ
dt_lnk = 10

-- `sizeof(struct direntry) - sizeof(entry.d_name)`: 1048 - 1024
abbrev pub dirent_fixed : ℕ
dirent_fixed = 24

-- `sysfs_calc_dirent_size`; `& ~7` clears the last three bits.
unfoldable pub calc_dirent_size : Bytes → ℕ
calc_dirent_size name = dirent_fixed + (length name + 1 + 7) / 8 * 8

-- The entry that `sysfs_copyout_dirent` fills in.
abbrev pub to_dirent : Entry → ℕ → ℕ → Dirent
to_dirent e size seekoff = record {
  d_ino = e.ino;
  d_seekoff = seekoff;
  d_reclen = size % 2 ^ 16;
  d_namlen = length e.name % 2 ^ 16;
  d_type = e.dtype;
  d_name = e.name;
}

-- `sysfs_copyout_dirent`: the error, `*sizep` (0 if there is no room) and the buffer.
unfoldable pub copyout_dirent : Uiomove Dirent → Entry → UioOf Dirent → ℕ → ℕ → ℕ × ℕ × UioOf Dirent
copyout_dirent uiomove e uio size seekoff =
    if leb size uio.resid
    then (let (error, uio') = uiomove (to_dirent e size seekoff ∷ []) size uio in
        (error, size, uio'))
    else (0, 0, uio)

-- The variables of a readdir loop. `halted` is set where the code breaks or jumps to `done`.
pub record Cursor : Type 0 where
  pub uio : UioOf Dirent
  pub nextpos : ℕ
  pub numentries : ℕ
  pub error : ℕ
  pub halted : Bool

abbrev pub failed : ℕ → Bool
failed error = if error == 0 then false else true

-- The block that each loop holds: an entry before `startpos` is passed over; one at or after it is
-- copied out, and ends the loop if it does not fit or the copy fails.
unfoldable pub put_entry : Uiomove Dirent → ℕ → Entry → Cursor → Cursor
put_entry uiomove startpos e c =
    let size = calc_dirent_size e.name in
    if leb startpos c.nextpos
    then (let (error, size', uio') = copyout_dirent uiomove e c.uio size (c.nextpos + size) in
        if size' == 0 || failed error
        then record c { uio = uio'; error = error; halted = true }
        else record c {
          uio = uio';
          error = error;
          numentries = c.numentries + 1;
          nextpos = c.nextpos + size';
        })
    else record c { nextpos = c.nextpos + size }
