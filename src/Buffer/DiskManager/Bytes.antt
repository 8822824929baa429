-- ===== src/Buffer/DiskManager/Bytes.antt =====
-- The bytes of a file (src/storage/disk_manager.cpp) around a page that is written.
use gavin_db.Prelude.{
  ℕ, zero, suc, ◌+◌, ◌*◌, ◌≤◌, ◌≡◌, ◌≢◌, refl, ap, ◌∙◌, sym, List, [], ◌∷◌, length, arith, put_at,
  put_at_ne, fun_ext, Bool-cases, ltb, inl, inr,
}
use gavin_db.Buffer.Disk.{Data}
use gavin_db.Buffer.DiskManager.{File, seen, read_page_at, write_page_at}
use gavin_db.Table.Bytes.{write_bytes, read_bytes, read_bytes-write_bytes, read_bytes-behind}

length-read_bytes : (f : ℕ → ℕ) (offset n : ℕ) → length (read_bytes f offset n) ≡ n
unfolding read_bytes
length-read_bytes f offset zero = refl
length-read_bytes f offset (suc n) = let rest = length-read_bytes f (suc offset) n in omega arith

-- A byte behind those that are written.
behind :
    (f : ℕ → ℕ) (offset : ℕ) (bytes : List ℕ) (i : ℕ)
    → offset + length bytes ≤ i
    → write_bytes f offset bytes i ≡ f i
unfolding write_bytes
behind f offset [] i h = refl
behind f offset (b ∷ bytes) i h =
    put_at_ne (write_bytes f (suc offset) bytes) offset b i (λ e. omega arith)
    ∙ behind f (suc offset) bytes i (omega arith)

before_put_at :
    (f : ℕ → ℕ) (at b offset n : ℕ)
    → offset + n ≤ at
    → read_bytes (put_at f at b) offset n ≡ read_bytes f offset n
unfolding read_bytes
before_put_at f at b offset zero h = refl
before_put_at f at b offset (suc n) h =
    let rest = before_put_at f at b (suc offset) n (omega arith) in
    let here = put_at_ne f at b offset (λ e. omega arith) in rw (rest, here) refl

-- What lies before the bytes that are written stays.
read_bytes-before :
    (f : ℕ → ℕ) (offset : ℕ) (bytes : List ℕ) (start n : ℕ)
    → start + n ≤ offset
    → read_bytes (write_bytes f offset bytes) start n ≡ read_bytes f start n
unfolding write_bytes
read_bytes-before f offset [] start n h = refl
read_bytes-before f offset (b ∷ bytes) start n h =
    before_put_at (write_bytes f (suc offset) bytes) offset b start n (omega arith)
    ∙ read_bytes-before f (suc offset) bytes start n (omega arith)

pub length-read_page_at : (offset : ℕ) (file : File) → length (read_page_at offset file) ≡ 4096
unfolding read_page_at
length-read_page_at offset file = length-read_bytes (seen file) offset 4096

seen-write_page_at :
    (offset : ℕ) (x : Data) (file : File)
    → length x ≡ 4096
    → seen (write_page_at offset x file) ≡ write_bytes (seen file) offset x
unfolding write_page_at
seen-write_page_at offset x file sized = fun_ext (λ i.
    elim (Bool-cases (ltb i (write_page_at offset x file).size)) [
      | inl inside ↦ rw (inside) refl
      | inr outside ↦
          let unchanged = behind (seen file) offset x i (ground arith) in
          let zeros : seen file i ≡ 0 = ground arith in rw (outside) (sym (unchanged ∙ zeros))
    ])

pub read_read_page_at-write_page_at :
    (offset : ℕ) (x : Data) (file : File)
    → length x ≡ 4096
    → read_page_at offset (write_page_at offset x file) ≡ x
unfolding read_page_at
read_read_page_at-write_page_at offset x file sized =
    ap (λ f. read_bytes f offset 4096) (seen-write_page_at offset x file sized)
    ∙ ap (λ n. read_bytes (write_bytes (seen file) offset x) offset n) (sym sized)
    ∙ read_bytes-write_bytes (seen file) offset x

-- Another page of the file stays.
pub read_page_at-elsewhere :
    (m n : ℕ) (x : Data) (file : File)
    → length x ≡ 4096
    → m ≢ n
    → read_page_at (n * 4096) (write_page_at (m * 4096) x file) ≡ read_page_at (n * 4096) file
unfolding read_page_at
read_page_at-elsewhere m n x file sized other =
    ap (λ f. read_bytes f (n * 4096) 4096) (seen-write_page_at (m * 4096) x file sized)
    ∙ (elim (Bool-cases (ltb m n)) [
      | inl less ↦ read_bytes-behind (seen file) (m * 4096) x (n * 4096) 4096 (ground arith)
      | inr more ↦ read_bytes-before (seen file) (m * 4096) x (n * 4096) 4096 (ground arith)
    ])

pub size-write_page_at :
    (offset : ℕ) (x : Data) (file : File)
    → (file.size ≤ (write_page_at offset x file).size)
      × (offset ≤ (write_page_at offset x file).size)
unfolding write_page_at
size-write_page_at offset x file = ground arith
