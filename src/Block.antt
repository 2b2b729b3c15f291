-- ===== src/Block.antt =====
-- devices/block.c of pintos_pro3/src: a block device, its access checks and its statistics. The
-- driver behind it (`ops`) is the array of its sectors. A sector's contents move as a whole.
use sustech_cs.Prelude.{ℕ, ◌+◌, Bool, Option, none, some, List, ltb, if◌then◌else◌, update}

-- The bytes of one sector.
abbrev pub Buffer : Type 0
Buffer = List ℕ

pub record Block : Type 0 where
  pub size : ℕ
  pub is_foreign : Bool
  pub content : ℕ → Buffer
  pub read_cnt : ℕ
  pub write_cnt : ℕ

-- Whether the access does not panic.
abbrev pub check_sector : Block → ℕ → Bool
check_sector b sector = ltb sector b.size

unfoldable pub block_read : ℕ → Block → Option (Buffer × Block)
block_read sector b =
    if check_sector b sector
    then some (b.content sector, record b { read_cnt = b.read_cnt + 1 })
    else none

unfoldable pub block_write : ℕ → Buffer → Block → Option Block
block_write sector buffer b =
    if check_sector b sector
    then (if b.is_foreign
        then none
        else some
            (record b { content = update b.content sector buffer; write_cnt = b.write_cnt + 1 }))
    else none
