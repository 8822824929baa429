-- ===== src/Tree/Crabbing.antt =====
-- Latch crabbing of an insertion: the pages that are write-latched and pinned are those of the
-- page set and the one that the descent is at.
use gavin_db.Prelude.{
  ℕ, suc, ◌+◌, ◌-◌, ◌^◌, ◌≤◌, ◌<◌, ◌≡◌, refl, ap, ◌∙◌, List, [], ◌∷◌, ◌++◌, Result, ok, arith, ltb,
  Bool-cases, inl, inr,
}
use gavin_db.Prelude.Int.{ℤ}
use gavin_db.Btree.Page.{BtreePage}
use gavin_db.Tree.State.{Tree, at, pin_more}
use gavin_db.Tree.Descent.{
  insert_op, crab, release_pages, release_parent_write_latches, release_if_safe, is_safe_node,
}
use gavin_db.Tree.Counts.{one, one-bit, at-add, at-sub, pin_more-add}

abbrev pub count : List ℤ → ℤ → ℕ
count [] x = 0
count (page ∷ pages) x = one page x + count pages x

pub count_last :
    (pages : List ℤ) (page x : ℤ) → count (pages ++ page ∷ []) x ≡ count pages x + one page x
count_last [] page x = omega arith
count_last (p ∷ pages) page x = omega (arith, count_last pages page x)

-- The counts after one less for each page of the list.
unfoldable pub dropped : List ℤ → (ℤ → ℕ) → ℤ → ℕ
dropped [] f = f
dropped (page ∷ pages) f = dropped pages (at f page (f page - 1))

pub dropped-sub : (pages : List ℤ) (f : ℤ → ℕ) (x : ℤ) → dropped pages f x ≡ f x - count pages x
unfolding dropped
dropped-sub [] f x = omega arith
dropped-sub (page ∷ pages) f x =
    omega (arith, dropped-sub pages (at f page (f page - 1)) x, at-sub f page x)

module _ {K V : Type 0} where
  abbrev pub released : List ℤ → Tree K V → Tree K V
  released pages t = record t {
    page_set = [];
    pins = dropped pages t.pins;
    writers = dropped pages t.writers;
  }

  release_pages-released :
      (pages : List ℤ) (t : Tree K V) → release_pages pages t ≡ ok (tt, released pages t)
  unfolding release_pages dropped
  release_pages-released [] t = refl
  release_pages-released (page ∷ pages) t = release_pages-released pages (record t {
    pins = at t.pins page (t.pins page - 1);
    writers = at t.writers page (t.writers page - 1);
  })

  pub release-released :
      (t : Tree K V) → release_parent_write_latches t ≡ ok (tt, released t.page_set t)
  unfolding release_parent_write_latches
  release-released t = release_pages-released t.page_set t

  -- What is pinned and latched for writing, beyond what was before the operation; of a page's pins this is known as long
  -- as as many more as the depth do not wrap.
  pub record Held (depth : ℕ) (pins writers : ℤ → ℕ) (page : ℤ) (t : Tree K V) : Type 0 where
    pub pinned :
        (x : ℤ) → pins x + depth < 2 ^ 16 → t.pins x ≡ pins x + count t.page_set x + one page x
    pub short : (x : ℤ) → count t.page_set x + 1 ≤ depth
    pub latched : (x : ℤ) → t.writers x ≡ writers x + count t.page_set x + one page x

  -- The state after the child has been fetched and latched, and the page put into the page set.
  abbrev entered : ℤ → ℤ → Tree K V → Tree K V
  entered page child t = record t {
    page_set = t.page_set ++ page ∷ [];
    pins = pin_more child t.pins;
    writers = at t.writers child (t.writers child + 1);
  }

  module _ (depth : ℕ) (pins writers : ℤ → ℕ) (page child : ℤ) (t : Tree K V)
      (held : Held depth pins writers page t) where
    entered-Held : Held (suc depth) pins writers child (entered page child t)
    entered-Held = record {
      pinned = λ x few.
          let before = held.pinned x (omega (arith, few)) in
          omega (
            arith,
            before,
            pin_more-add t.pins child x (omega (arith, few, before, held.short x, one-bit page x)),
            count_last t.page_set page x,
          );
      short = λ x. omega (arith, held.short x, one-bit page x, count_last t.page_set page x);
      latched = λ x.
          omega (arith, held.latched x, at-add t.writers child x, count_last t.page_set page x);
    }

  pub released-Held :
      (depth : ℕ) (pins writers : ℤ → ℕ) (page : ℤ) (t : Tree K V)
      → Held depth pins writers page t
      → Held depth pins writers page (released t.page_set t)
  released-Held depth pins writers page t held = record {
    pinned = λ x few. omega (arith, held.pinned x few, dropped-sub t.page_set t.pins x);
    short = λ x. omega (arith, held.short x);
    latched = λ x. omega (arith, held.latched x, dropped-sub t.page_set t.writers x);
  }

  pub deeper-Held :
      (depth limit : ℕ) (pins writers : ℤ → ℕ) (page : ℤ) (t : Tree K V)
      → depth ≤ limit
      → Held depth pins writers page t
      → Held limit pins writers page t
  deeper-Held depth limit pins writers page t below held = record {
    pinned = λ x few. held.pinned x (omega (arith, few));
    short = λ x. omega (arith, held.short x);
    latched = held.latched;
  }

  -- A state that differs in its pins, write latches and page set only.
  abbrev pub with_latches : Tree K V → (ℤ → ℕ) → (ℤ → ℕ) → List ℤ → Tree K V
  with_latches t pins writers pages = record t { pins = pins; writers = writers; page_set = pages }

  -- What a step to a child ends in: it is held, and above it nothing is, where it is safe.
  pub record Crabbed (depth : ℕ) (pins writers : ℤ → ℕ) (child : ℤ) (base : BtreePage)
      (t : Tree K V) (r : Result (Unit {0} × Tree K V)) : Type 0 where
    pub new_pins : ℤ → ℕ
    pub new_writers : ℤ → ℕ
    pub pages : List ℤ
    pub result : r ≡ ok (tt, with_latches t new_pins new_writers pages)
    pub held : Held (suc depth) pins writers child (with_latches t new_pins new_writers pages)
    pub safe : base.size < base.max_size → pages ≡ []

  pub crab-Crabbed :
      (depth : ℕ) (pins writers : ℤ → ℕ) (page child : ℤ) (base : BtreePage) (t : Tree K V)
      → Held depth pins writers page t
      → Crabbed depth pins writers child base t
          (crab insert_op page child base (record t { pins = pin_more child t.pins }))
  unfolding crab is_safe_node
  crab-Crabbed depth pins writers page child base t held =
      let e = entered page child t in
      let e-held = entered-Held depth pins writers page child t held in
      elim (Bool-cases (ltb base.size base.max_size)) [
        | inl less ↦
            let free = released e.page_set e in
            record {
              new_pins = free.pins;
              new_writers = free.writers;
              pages = [];
              result = ap (λ b. release_if_safe (ok b) e) less ∙ release-released e;
              held = released-Held (suc depth) pins writers child e e-held;
              safe = λ h. refl;
            }
        | inr full ↦ record {
          new_pins = e.pins;
          new_writers = e.writers;
          pages = e.page_set;
          result = ap (λ b. release_if_safe (ok b) e) full;
          held = e-held;
          safe = λ h. absurd (ground (arith, full));
        }
      ]
