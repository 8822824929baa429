-- ===== src/Buffer/DiskManager/Pages.antt =====
-- The disk manager's reads and writes (src/storage/disk_manager.cpp) as the buffer pool relies on them.
use gavin_db.Prelude.{
  ℕ, ◌+◌, ◌*◌, ◌%◌, ◌^◌, ◌<◌, ◌≡◌, ◌≢◌, refl, ap, ◌∙◌, sym, length, Bool, true, false, ltb, some,
  ok, io, arith, inl, inr, Bool-cases, guard-returned, ok-injective,
}
use gavin_db.Prelude.Int.{ℤ, pos}
use gavin_db.Buffer.PageId.{PageId, page_id_eq, page_id_eq_iff}
use gavin_db.Buffer.Disk.{Data, DiskOps}
use gavin_db.Buffer.DiskManager.{
  Files, Host, read_page_at, write_page_at, put_file, read_page, write_page, fill_up, write_offset,
  add_table_data_if_not_exist,
}
use gavin_db.Buffer.DiskManager.Bytes.{length-read_page_at}
use gavin_db.Buffer.DiskManager.Files.{
  stored, IsReadable, IsWritable, stored-inv, stored-IsWritable, read-ok, offset_of, small_write,
  both, placed, placed_here, placed_there, opened,
}

module _ (host : Host) where
  -- A read keeps every page, whether or not it fills up the last one.
  pub fill_up_keeps :
      (p : PageId) (d : Files) {x : Data}
      → stored host p d ≡ some x
      → (q : PageId) (y : Data) → stored host q d ≡ some y
      → stored host q (fill_up p d) ≡ some y
  unfolding fill_up
  fill_up_keeps p d h q y k =
      let (n, number, small, known, _, bytes) = stored-inv host p d h in
      let file = d p.table_id in
      let sized = length-read_page_at (n * 4096) file in
      let at = offset_of host p n number small d in
      elim (Bool-cases (ltb file.size (n * 4096 + 4096))) [
        | inr whole ↦ rw (at, whole) k
        | inl short ↦
            let filled : fill_up p d
                ≡ placed host p n number small (read_page_at (n * 4096) file) sized d =
              rw (at, short) refl in
            ap (stored host q) filled ∙ elim (Bool-cases (page_id_eq p q)) [
              | inl same ↦
                  let e = (page_id_eq_iff p q).0 same in
                  ap
                    (λ r.
                      stored host r
                        (placed host p n number small (read_page_at (n * 4096) file) sized d))
                    (sym e)
                  ∙ placed_here host p n number small (read_page_at (n * 4096) file) sized d known
                  ∙ ap some bytes
                  ∙ sym h
                  ∙ ap (λ r. stored host r d) e
                  ∙ k
              | inr other ↦
                  placed_there host p n number small (read_page_at (n * 4096) file) sized d q y
                    (λ e. true_ne_false ((page_id_eq_iff p q).1 e) other) k
            ]
      ]
    where
      true_ne_false : {b : Bool} → b ≡ true → b ≡ false → ⊥
      true_ne_false e f = cc

  pub known_of : (p : PageId) (x : Data) → IsWritable host p x → IsReadable host p
  known_of p x (_, _, _, _, known) = known

  -- What a write that succeeds has done.
  pub written :
      (p : PageId) (x : Data) (d : Files) {d' : Files} (good : IsWritable host p x)
      → write_page host p x d ≡ ok d'
      → placed host p good.0 good.1 good.2 x good.3 d ≡ d'
  unfolding write_page write_offset
  written p x d (n, number, small, sized, known) h =
      let (_, rest) = both (add_table_data_if_not_exist host p.table_id) _ h in
      let (_, rest) = guard-returned (host.writes p) io _ _ rest in
      let at : write_offset p.page_number ≡ n * 4096 =
        ap write_offset number ∙ small_write host n small in
      ap (λ o. put_file d p.table_id (write_page_at o x (d p.table_id))) (sym at)
      ∙ ok-injective rest

  pub read_is :
      (p : PageId) (d : Files) {x y : Data} {d' : Files}
      → stored host p d ≡ some x
      → read_page host p d ≡ ok (y, d')
      → fill_up p d ≡ d'
  read_is p d h e =
      let (n, number, small, known, inside, _) = stored-inv host p d h in
      ap (λ t. t.1) (ok-injective (sym (read-ok host p n number small d known inside) ∙ e))

  -- The disk manager is one that the buffer pool can rely on.
  abbrev pub disk_manager : DiskOps
  disk_manager = record {
    Disk = Files;
    read_page = read_page host;
    write_page = write_page host;
    stored = stored host;
    IsWritable = IsWritable host;
    stored-IsWritable = λ p d h. stored-IsWritable host p d h;
    read-stored = λ p d h.
        let (n, number, small, known, inside, bytes) = stored-inv host p d h in
        (
          fill_up p d,
          read-ok host p n number small d known inside ∙ ap (λ y. ok (y, fill_up p d)) bytes,
        );
    read_keeps =
        λ p d h e q y k. ap (stored host q) (sym (read_is p d h e)) ∙ fill_up_keeps p d h q y k;
    write-stored = λ p x d good e.
        ap (stored host p) (sym (written p x d good e))
        ∙ placed_here host p good.0 good.1 good.2 x good.3 d (known_of p x good);
    write_keeps = λ p x d good e q y other h.
        ap (stored host q) (sym (written p x d good e))
        ∙ placed_there host p good.0 good.1 good.2 x good.3 d q y other h;
  }

  wrapped : (n : ℕ) → (n * 4096) % 2 ^ 32 ≡ (n % 2 ^ 20) * 4096
  wrapped n = omega arith

  -- A page is written, where its stream takes it, to the place of the page of its number modulo 2 ^ 20: a read of that page
  -- then gives the bytes, and of every other page what it gave before.
  pub write_page-stored :
      (n : ℕ) (table_id : ℤ) (x : Data) (d : Files)
      → length x ≡ 4096
      → IsReadable host record { page_number = pos (n % 2 ^ 20); table_id = table_id }
      → host.writes record { page_number = pos n; table_id = table_id } ≡ true
      → (d' : Files) × (write_page host record { page_number = pos n; table_id = table_id } x d
          ≡ ok d')
        × (stored host record { page_number = pos (n % 2 ^ 20); table_id = table_id } d' ≡ some x)
        × ((q : PageId) (y : Data)
            → record { page_number = pos (n % 2 ^ 20); table_id = table_id } ≢ q
            → stored host q d ≡ some y
            → stored host q d' ≡ some y)
  unfolding write_page write_offset
  write_page-stored n table_id x d sized known writes =
      let low : PageId = record { page_number = pos (n % 2 ^ 20); table_id = table_id } in
      let small : n % 2 ^ 20 < 2 ^ 20 = omega arith in
      (
        placed host low (n % 2 ^ 20) refl small x sized d,
        rw (opened host low known, writes, wrapped n) refl,
        placed_here host low (n % 2 ^ 20) refl small x sized d known,
        λ q y other h. placed_there host low (n % 2 ^ 20) refl small x sized d q y other h,
      )
