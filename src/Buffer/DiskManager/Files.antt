-- ===== src/Buffer/DiskManager/Files.antt =====
-- The files of the disk manager (src/storage/disk_manager.cpp) as the pages that the buffer pool relies on.
use gavin_db.Prelude.{
  ℕ, ◌*◌, ◌%◌, ◌^◌, ◌<◌, ◌≤◌, ◌≡◌, ◌≢◌, refl, ap, ◌∙◌, sym, length, Bool, true, false, ltb, not,
  Option, none, some, Result, ok, err, io, guard, ◌>>◌, if◌then◌else◌, arith, inl, inr, Bool-cases,
  guard-returned,
}
use mathlib.Core.Path.{subst}
use gavin_db.Prelude.Int.{ℤ, pos, negsuc, int_eq}
use gavin_db.Buffer.PageId.{PageId}
use gavin_db.Buffer.Disk.{Data}
use gavin_db.Buffer.DiskManager.{
  Files, File, Host, read_page_at, write_page_at, put_file, read_page, fill_up, read_offset,
  add_table_data_if_not_exist,
}
use gavin_db.Buffer.DiskManager.Bytes.{
  length-read_page_at, read_read_page_at-write_page_at, read_page_at-elsewhere, size-write_page_at,
}

-- The pages whose offset fits the 32 bits of a write.
abbrev pub fits : ℤ → Bool
fits (pos n) = ltb n (2 ^ 20)
fits (negsuc n) = false

fits-inv : (z : ℤ) → fits z ≡ true → (n : ℕ) × (z ≡ pos n) × (n < 2 ^ 20)
fits-inv (pos n) h = (n, refl, ground arith)
fits-inv (negsuc n) h = absurd (cc)

abbrev or_else : Option Data → Data → Data
or_else none y = y
or_else (some x) y = x

pub both :
    {B : Type 0} (r : Result (Unit {0})) (s : Result B) {b : B}
    → (r >> s) ≡ ok b
    → (r ≡ ok tt) × (s ≡ ok b)
both (ok tt) s h = (refl, h)
both (err e) s h = absurd (cc)

guard-ok : (b : Bool) → guard b io ≡ ok tt → b ≡ true
guard-ok true h = refl
guard-ok false h = absurd (cc)

module _ (host : Host) where
  abbrev pub bytes_of : Result (Data × Files) → Option Data
  bytes_of (ok (x, d)) = some x
  bytes_of (err e) = none

  abbrev pub stored : PageId → Files → Option Data
  stored p d = if fits p.page_number then bytes_of (read_page host p d) else none

  -- What a read needs of the host.
  abbrev pub IsReadable : PageId → Type 0
  IsReadable p =
      (host.named p.table_id ≡ ok tt) × (host.opens p.table_id ≡ true) × (host.reads p ≡ true)

  abbrev pub IsWritable : PageId → Data → Type 0
  IsWritable p x =
      (n : ℕ) × (p.page_number ≡ pos n) × (n < 2 ^ 20) × (length x ≡ 4096) × IsReadable p

  small_offset : (n : ℕ) → n < 2 ^ 20 → (n * 4096) % 2 ^ 64 ≡ n * 4096
  small_offset n h = omega arith

  pub small_write : (n : ℕ) → n < 2 ^ 20 → (n * 4096) % 2 ^ 32 ≡ n * 4096
  small_write n h = omega arith

  pub opened : (p : PageId) → IsReadable p → add_table_data_if_not_exist host p.table_id ≡ ok tt
  unfolding add_table_data_if_not_exist
  opened p (named, opens, reads) = elim (Bool-cases (int_eq p.table_id (negsuc 0))) [
    | inl own ↦ rw (own, opens) refl
    | inr other ↦ rw (other, named, opens) refl
  ]

  module _ (p : PageId) (n : ℕ) (number : p.page_number ≡ pos n) (small : n < 2 ^ 20)
      (d : Files) where
    pub offset_of : read_offset p.page_number ≡ n * 4096
    unfolding read_offset
    offset_of = ap read_offset number ∙ small_offset n small

    pub read-ok :
        IsReadable p
        → n * 4096 ≤ (d p.table_id).size
        → read_page host p d ≡ ok (read_page_at (n * 4096) (d p.table_id), fill_up p d)
    unfolding read_page
    read-ok known inside =
        let (named, opens, reads) = known in
        let within : ltb (d p.table_id).size (n * 4096) ≡ false = ground arith in
        rw (opened p known, named, offset_of, within, reads) refl

    fits-number : fits p.page_number ≡ true
    fits-number = rw (number) (ground arith)

    stored-ok :
        IsReadable p
        → n * 4096 ≤ (d p.table_id).size
        → stored p d ≡ some (read_page_at (n * 4096) (d p.table_id))
    stored-ok known inside = rw (fits-number, read-ok known inside) refl

    given :
        (r : Result (Data × Files)) {x : Data}
        → bytes_of r ≡ some x
        → (d' : Files) × (r ≡ ok (x, d'))
    given (ok (y, d')) {x} e = (d', ap (λ o. ok (or_else o y, d')) e)
    given (err _) e = absurd (cc)

    read-inv :
        {x : Data}
        → bytes_of (read_page host p d) ≡ some x
        → IsReadable p × (n * 4096 ≤ (d p.table_id).size)
    unfolding read_page add_table_data_if_not_exist
    read-inv h =
        let (d', e) = given (read_page host p d) h in
        let (opened, rest) = both (add_table_data_if_not_exist host p.table_id) _ e in
        let opens = (both _ (guard (host.opens p.table_id) io) opened).1 in
        let (named, rest) = both (host.named p.table_id) _ rest in
        let (within, rest) =
          guard-returned (not (ltb (d p.table_id).size (read_offset p.page_number))) io _ _ rest in
        let (reads, _) = guard-returned (host.reads p) io _ _ rest in
        let offset = offset_of in
        let inside : read_offset p.page_number ≤ (d p.table_id).size = ground arith in
        ((named, (guard-ok _ opens), reads), omega arith)

  -- What is known of a page that the files have.
  abbrev pub OnFile : PageId → Files → Data → Type 0
  OnFile p d x =
      (n : ℕ) × (p.page_number ≡ pos n)
      × (n < 2 ^ 20)
      × IsReadable p
      × (n * 4096 ≤ (d p.table_id).size)
      × (read_page_at (n * 4096) (d p.table_id) ≡ x)

  pub stored-inv : (p : PageId) (d : Files) {x : Data} → stored p d ≡ some x → OnFile p d x
  stored-inv p d {x} h = elim (Bool-cases (fits p.page_number)) [
    | inr outside ↦ absurd (none_ne (rw (outside) at h))
    | inl within ↦
        let (n, number, small) = fits-inv p.page_number within in
        let (known, inside) = read-inv p n number small d (rw (within) at h) in
        (
          n,
          number,
          small,
          known,
          inside,
          same (sym (stored-ok p n number small d known inside) ∙ h),
        )
  ]
    where
      none_ne : {x : Data} → ◌≡◌ {A = Option Data} none (some x) → ⊥
      none_ne e = cc

      same : {x y : Data} → ◌≡◌ {A = Option Data} (some x) (some y) → x ≡ y
      same e = cc

  put_file_self : (d : Files) (t : ℤ) (file : File) → put_file d t file t ≡ file
  put_file_self d t file = ground arith

  -- The files once a page of 4096 bytes is written to its place.
  module _ (p : PageId) (n : ℕ) (number : p.page_number ≡ pos n) (small : n < 2 ^ 20) (x : Data)
      (sized : length x ≡ 4096) (d : Files) where
    abbrev pub placed : Files
    placed = put_file d p.table_id (write_page_at (n * 4096) x (d p.table_id))

    pub placed_here : IsReadable p → stored p placed ≡ some x
    placed_here known =
        let here = put_file_self d p.table_id (write_page_at (n * 4096) x (d p.table_id)) in
        let (_, inside) = size-write_page_at (n * 4096) x (d p.table_id) in
        stored-ok p n number small placed known
          (subst (λ (f : File). n * 4096 ≤ f.size) (sym here) inside)
        ∙ ap some (
            ap (read_page_at (n * 4096)) here
            ∙ read_read_page_at-write_page_at (n * 4096) x (d p.table_id) sized)

    pub placed_there :
        (q : PageId) (y : Data) → p ≢ q → stored q d ≡ some y → stored q placed ≡ some y
    placed_there q y other h =
        let (m, numbered, little, known, inside, bytes) = stored-inv q d h in
        elim (Bool-cases (int_eq p.table_id q.table_id)) [
          | inl same ↦
              let table : p.table_id ≡ q.table_id = ground arith in
              let apart : n ≢ m = λ e. other (λ i. record {
                page_number = (number ∙ ap pos e ∙ sym numbered) i;
                table_id = table i;
              }) in
              let here : placed q.table_id ≡ write_page_at (n * 4096) x (d q.table_id) =
                rw (same) (ap (λ t. write_page_at (n * 4096) x (d t)) table) in
              let (kept, _) = size-write_page_at (n * 4096) x (d q.table_id) in
              stored-ok q m numbered little placed known
                (subst (λ (f : File). m * 4096 ≤ f.size) (sym here) (omega arith))
              ∙ ap some (
                  ap (read_page_at (m * 4096)) here
                  ∙ read_page_at-elsewhere n m x (d q.table_id) sized apart
                  ∙ bytes)
          | inr differs ↦
              let here : placed q.table_id ≡ d q.table_id = rw (differs) refl in
              stored-ok q m numbered little placed known
                (subst (λ (f : File). m * 4096 ≤ f.size) (sym here) inside)
              ∙ ap some (ap (read_page_at (m * 4096)) here ∙ bytes)
        ]

  pub stored-IsWritable : (p : PageId) (d : Files) {x : Data} → stored p d ≡ some x → IsWritable p x
  stored-IsWritable p d h =
      let (n, number, small, known, _, bytes) = stored-inv p d h in
      (
        n,
        number,
        small,
        ap length (sym bytes) ∙ length-read_page_at (n * 4096) (d p.table_id),
        known,
      )
