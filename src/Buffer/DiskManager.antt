-- ===== src/Buffer/DiskManager.antt =====
-- The disk manager: src/storage/disk_manager.cpp, with `GetFileSize` of src/include/common/fs_utils.hpp.
pub mod Bytes
pub mod Files
pub mod Pages
use gavin_db.Prelude.{
  ℕ, suc, ◌+◌, ◌-◌, ◌*◌, ◌%◌, ◌^◌, Bool, ltb, not, List, Result, ok, io, guard, ◌>>◌, if◌then◌else◌,
}
use gavin_db.Prelude.Int.{ℤ, pos, negsuc, int_eq}
use gavin_db.Buffer.PageId.{PageId}
use gavin_db.Buffer.Disk.{Data}
use gavin_db.Table.Bytes.{write_bytes, read_bytes}

-- A file: its size, and its bytes below that.
pub record File : Type 0 where
  pub size : ℕ
  pub bytes : ℕ → ℕ

-- The file of each table, by the table's number; a file that is not there yet is empty.
abbrev pub Files : Type 0
Files = ℤ → File

-- What is not the manager's own: what `GetTableName` ends in for a table, whether its file can be
-- opened or made, and whether the stream goes bad when the page is read or written. The answers stay
-- the same, so that a file that is open already need not be told from one that is opened again.
pub record Host : Type 0 where
  pub named : ℤ → Result (Unit {0})
  pub opens : ℤ → Bool
  pub reads : PageId → Bool
  pub writes : PageId → Bool

-- What a read gives at a position: behind the end, the zeros that fill a page up.
abbrev pub seen : File → ℕ → ℕ
seen file i = if ltb i file.size then file.bytes i else 0

unfoldable pub read_page_at : ℕ → File → Data
read_page_at offset file = read_bytes (seen file) offset 4096

-- A write behind the end leaves zeros before it.
unfoldable pub write_page_at : ℕ → Data → File → File
write_page_at offset page_data file = record {
  size = if ltb file.size (offset + 4096) then offset + 4096 else file.size;
  bytes = write_bytes (seen file) offset page_data;
}

abbrev pub put_file : Files → ℤ → File → Files
put_file files table_id file t = if int_eq table_id t then file else files t

-- `page_number_ * PAGE_SIZE`, in 32 bits.
unfoldable pub write_offset : ℤ → ℕ
write_offset (pos n) = (n * 4096) % 2 ^ 32
write_offset (negsuc n) = ((2 ^ 32 - suc n) * 4096) % 2 ^ 32

-- `static_cast<size_t>(page_number_) * PAGE_SIZE`, in 64 bits.
unfoldable pub read_offset : ℤ → ℕ
read_offset (pos n) = (n * 4096) % 2 ^ 64
read_offset (negsuc n) = ((2 ^ 64 - suc n) * 4096) % 2 ^ 64

-- A page that the file has only a part of is filled up with zeros, and written back.
unfoldable pub fill_up : PageId → Files → Files
unfolding write_page_at read_page_at read_offset
fill_up p files =
    let file = files p.table_id in
    let offset = read_offset p.page_number in
    if ltb file.size (offset + 4096)
    then put_file files p.table_id (write_page_at offset (read_page_at offset file) file)
    else files

module _ (host : Host) where
  -- The catalog's own file has a name of its own.
  unfoldable pub add_table_data_if_not_exist : ℤ → Result (Unit {0})
  add_table_data_if_not_exist table_id =
      (if int_eq table_id (negsuc 0) then ok tt else host.named table_id)
      >> guard (host.opens table_id) io

  unfoldable pub write_page : PageId → Data → Files → Result Files
  unfolding write_page_at write_offset add_table_data_if_not_exist
  write_page p page_data files =
      add_table_data_if_not_exist p.table_id
      >> (guard (host.writes p) io
          >> ok (
              put_file files p.table_id
                (write_page_at (write_offset p.page_number) page_data (files p.table_id))))

  unfoldable pub read_page : PageId → Files → Result (Data × Files)
  unfolding fill_up read_offset add_table_data_if_not_exist read_page_at
  read_page p files =
      add_table_data_if_not_exist p.table_id
      >> (host.named p.table_id
          >> (guard (not (ltb (files p.table_id).size (read_offset p.page_number))) io
              >> (guard (host.reads p) io
                  >> ok (
                    read_page_at (read_offset p.page_number) (files p.table_id),
                    fill_up p files,
                  ))))
