-- ===== src/Table/Bytes.antt =====
-- memcpy into and out of a page, whose bytes are a function of the position.
use gavin_db.Prelude.{
  ℕ, zero, suc, ◌+◌, ◌<◌, ◌≤◌, ◌≡◌, refl, ap, ◌∙◌, List, [], ◌∷◌, length, arith, put_at,
  put_at_self, put_at_ne,
}

unfoldable pub write_bytes : (ℕ → ℕ) → ℕ → List ℕ → ℕ → ℕ
write_bytes page offset [] = page
write_bytes page offset (b ∷ bytes) = put_at (write_bytes page (suc offset) bytes) offset b

unfoldable pub read_bytes : (ℕ → ℕ) → ℕ → ℕ → List ℕ
read_bytes page offset zero = []
read_bytes page offset (suc n) = page offset ∷ read_bytes page (suc offset) n

cons-eq : {x y : ℕ} {xs ys : List ℕ} → x ≡ y → xs ≡ ys → (x ∷ xs) ≡ (y ∷ ys)
cons-eq {x} {ys} e es = ap (λ l. x ∷ l) es ∙ ap (λ z. z ∷ ys) e

read_bytes-put_at :
    (page : ℕ → ℕ) (at b offset n : ℕ)
    → at < offset
    → read_bytes (put_at page at b) offset n ≡ read_bytes page offset n
unfolding read_bytes
read_bytes-put_at page at b offset zero h = refl
read_bytes-put_at page at b offset (suc n) h =
    cons-eq (put_at_ne page at b offset (λ e. omega arith))
      (read_bytes-put_at page at b (suc offset) n (omega arith))

pub read_bytes-write_bytes :
    (page : ℕ → ℕ) (offset : ℕ) (bytes : List ℕ)
    → read_bytes (write_bytes page offset bytes) offset (length bytes) ≡ bytes
unfolding read_bytes write_bytes
read_bytes-write_bytes page offset [] = refl
read_bytes-write_bytes page offset (b ∷ bytes) =
    cons-eq (put_at_self (write_bytes page (suc offset) bytes) offset b) (
      read_bytes-put_at (write_bytes page (suc offset) bytes) offset b (suc offset) (length bytes)
        (omega arith)
      ∙ read_bytes-write_bytes page (suc offset) bytes)

-- What lies behind the bytes that are written stays.
pub read_bytes-behind :
    (page : ℕ → ℕ) (offset : ℕ) (bytes : List ℕ) (start n : ℕ)
    → offset + length bytes ≤ start
    → read_bytes (write_bytes page offset bytes) start n ≡ read_bytes page start n
unfolding write_bytes
read_bytes-behind page offset [] start n h = refl
read_bytes-behind page offset (b ∷ bytes) start n h =
    read_bytes-put_at (write_bytes page (suc offset) bytes) offset b start n (omega arith)
    ∙ read_bytes-behind page (suc offset) bytes start n (omega arith)
