-- ===== src/Tests/Content.antt =====
-- Reading file content in pieces.
use m_sl_sys_fs.Base.{◌≡◌, refl, codes, arith}
use m_sl_sys_fs.Uio.{MovesBytes, move_bytes}
use m_sl_sys_fs.Subr.{copy_data}
use m_sl_sys_fs.Subr.Copy.{read_all, read_all-copy_data}

pub move_bytes-MovesBytes : MovesBytes move_bytes
move_bytes-MovesBytes bytes n u h = refl

read_all-copy_data_example :
    read_all (copy_data move_bytes (codes "8191\n") 5) 2 6 0 ≡ codes "8191\n"
read_all-copy_data_example =
    read_all-copy_data move_bytes move_bytes-MovesBytes (codes "8191\n") 2 6 (omega arith)
      (omega arith)
