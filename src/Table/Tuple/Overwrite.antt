-- ===== src/Table/Tuple/Overwrite.antt =====
-- Bytes that are written into a tuple (Tuple) stand there, and stay there when others are written elsewhere.
use gavin_db.Prelude.{
  ℕ, zero, suc, ◌+◌, ◌≤◌, ◌≡◌, refl, ap, sym, ◌∙◌, List, [], ◌∷◌, ◌++◌, length, ok, arith, le→leb,
}
use mathlib.Core.Path.{subst}
use gavin_db.Meta.Values.{skip}
use gavin_db.Table.Tuple.{Tuple, overwrite, write_at}

-- The list begins with those bytes.
unfoldable pub Begins : List ℕ → List ℕ → Type 0
Begins [] ys = Unit
Begins (x ∷ xs) [] = ⊥
Begins (x ∷ xs) (y ∷ ys) = (x ≡ y) × Begins xs ys

pub Begins-rest : (xs ys : List ℕ) → Begins xs ys → (rest : List ℕ) × (ys ≡ xs ++ rest)
unfolding Begins
Begins-rest [] ys h = (ys, refl)
Begins-rest (x ∷ xs) [] h = absurd h
Begins-rest (x ∷ xs) (y ∷ ys) (e, h) =
    let (rest, es) = Begins-rest xs ys h in (rest, ap (λ z. z ∷ ys) (sym e) ∙ ap (λ zs. x ∷ zs) es)

-- The bytes stand in the tuple from an offset on.
unfoldable pub Holds : Tuple → ℕ → List ℕ → Type 0
unfolding skip Begins
Holds storage p xs = Begins xs (skip p storage)

pub length-overwrite :
    (storage : Tuple) (offset : ℕ) (bytes : List ℕ)
    → length (overwrite storage offset bytes) ≡ length storage
unfolding overwrite
length-overwrite [] offset bytes = refl
length-overwrite (x ∷ storage) zero [] = refl
length-overwrite (x ∷ storage) zero (b ∷ bytes) = ap suc (length-overwrite storage zero bytes)
length-overwrite (x ∷ storage) (suc offset) bytes = ap suc (length-overwrite storage offset bytes)

pub write_at-fits :
    (storage : Tuple) (offset : ℕ) (bytes : List ℕ)
    → offset + length bytes ≤ length storage
    → write_at storage offset bytes ≡ ok (overwrite storage offset bytes)
unfolding write_at
write_at-fits storage offset bytes h =
    rw (le→leb (offset + length bytes) (length storage) h, write_at)

pub overwrite-Holds_self :
    (storage : Tuple) (offset : ℕ) (bytes : List ℕ)
    → offset + length bytes ≤ length storage
    → Holds (overwrite storage offset bytes) offset bytes
unfolding Holds overwrite skip Begins
overwrite-Holds_self storage zero [] h = tt
overwrite-Holds_self storage (suc offset) [] h = tt
overwrite-Holds_self [] zero (b ∷ bytes) h = absurd (omega arith)
overwrite-Holds_self [] (suc offset) (b ∷ bytes) h = absurd (omega arith)
overwrite-Holds_self (x ∷ storage) zero (b ∷ bytes) h =
    (refl, overwrite-Holds_self storage zero bytes (omega arith))
overwrite-Holds_self (x ∷ storage) (suc offset) (b ∷ bytes) h =
    overwrite-Holds_self storage offset (b ∷ bytes) (omega arith)

-- What stands in front of the bytes that are written.
pub overwrite-Holds_front :
    (storage : Tuple) (offset : ℕ) (bytes : List ℕ) (p : ℕ) (xs : List ℕ)
    → p + length xs ≤ offset
    → Holds storage p xs
    → Holds (overwrite storage offset bytes) p xs
unfolding Holds overwrite skip Begins
overwrite-Holds_front storage offset bytes p [] h k = tt
overwrite-Holds_front [] offset bytes zero (y ∷ xs) h k = absurd k
overwrite-Holds_front [] offset bytes (suc p) (y ∷ xs) h k = absurd k
overwrite-Holds_front (x ∷ storage) zero bytes zero (y ∷ xs) h k = absurd (omega arith)
overwrite-Holds_front (x ∷ storage) zero bytes (suc p) (y ∷ xs) h k = absurd (omega arith)
overwrite-Holds_front (x ∷ storage) (suc offset) bytes zero (y ∷ xs) h (e, k) =
    (e, overwrite-Holds_front storage offset bytes zero xs (omega arith) k)
overwrite-Holds_front (x ∷ storage) (suc offset) bytes (suc p) (y ∷ xs) h k =
    overwrite-Holds_front storage offset bytes p (y ∷ xs) (omega arith) k

skip-overwrite :
    (storage : Tuple) (offset : ℕ) (bytes : List ℕ) (p : ℕ)
    → offset + length bytes ≤ p
    → skip p (overwrite storage offset bytes) ≡ skip p storage
unfolding overwrite skip
skip-overwrite [] offset bytes p h = refl
skip-overwrite (x ∷ storage) zero [] p h = refl
skip-overwrite (x ∷ storage) zero (b ∷ bytes) zero h = absurd (omega arith)
skip-overwrite (x ∷ storage) zero (b ∷ bytes) (suc p) h =
    skip-overwrite storage zero bytes p (omega arith)
skip-overwrite (x ∷ storage) (suc offset) bytes zero h = absurd (omega arith)
skip-overwrite (x ∷ storage) (suc offset) bytes (suc p) h =
    skip-overwrite storage offset bytes p (omega arith)

-- What stands behind them.
pub overwrite-Holds_behind :
    (storage : Tuple) (offset : ℕ) (bytes : List ℕ) (p : ℕ) (xs : List ℕ)
    → offset + length bytes ≤ p
    → Holds storage p xs
    → Holds (overwrite storage offset bytes) p xs
unfolding Holds
overwrite-Holds_behind storage offset bytes p xs h k =
    subst (Begins xs) (sym (skip-overwrite storage offset bytes p h)) k
