-- ===== src/Tree/FirstRoot.antt =====
-- The first insertion into an empty index: CreateNewRoot.
use gavin_db.Prelude.{
  ℕ, ◌+◌, ◌-◌, ◌^◌, ◌<◌, sym, inl, inr, Bool-cases, ◌≡◌, ◌≢◌, refl, ap, ◌∙◌, true, false, Bool,
  none, some, [], ◌∷◌, ◌++◌, ok, arith, ◌==◌, if◌then◌else◌,
}
use gavin_db.Prelude.Int.{ℤ, pos, int_eq, int_eq_iff, ltb_ℤ, ◌+ℤ◌}
use gavin_db.Btree.Comparator.{Comparator}
use gavin_db.Btree.Page.{invalid_page_id}
use gavin_db.Btree.Leaf.{LeafPage}
use gavin_db.Btree.Leaf
use gavin_db.Btree.Leaf.Insert.{IsLeaf, Inserted, first_value, insert-Inserted}
use gavin_db.Btree.Leaf.Search.{lookup_miss}
use gavin_db.Tree.State.{
  Tree, Zeros, blank, leaf, M, ◌>>=◌, ◌>>◌, return, at, pin_more, lift, write_node, new_page,
}
use gavin_db.Tree.Descent.{release_parent_write_latches}
use gavin_db.Tree.Insertion.{
  insert_record, insert_into_leaf, create_new_root, new_page_unguarded, zero_leaf, set_root,
}
use gavin_db.Tree.Content.{IsPage, IsTree, leaf_tree, here}
use gavin_db.Tree.Counts.{one, at-add, at-sub, pin_more-add}
use gavin_db.Tree.Search.{assert-true, next-ok}
use gavin_db.Tree.Crabbing.{count, count_last, dropped, dropped-sub, released, release-released}
use gavin_db.Tree.Replace.{Holds, at_self}
use gavin_db.Tree.Insert.{at_header}

-- The number that the table gives the next page.
abbrev pub next_page : ℤ → ℤ
next_page last = if int_eq last invalid_page_id then pos 0 else last +ℤ pos 1

pub next_page-IsPage : (last : ℤ) → ltb_ℤ last (pos 0) ≡ false → IsPage (next_page last)
unfolding ◌+ℤ◌
next_page-IsPage last h = ground arith

abbrev add_one : ℤ → (ℤ → ℕ) → ℤ → ℕ
add_one page f = at f page (f page + 1)

abbrev sub_one : ℤ → (ℤ → ℕ) → ℤ → ℕ
sub_one page f = at f page (f page - 1)

-- The pins of a new page, which has one, and of the others.
new_pin :
    (before : ℤ → ℕ) (root header x : ℤ)
    → before root ≡ 0
    → before x + 1 < 2 ^ 16
    → at (pin_more header before) root 1 x - one root x - one header x ≡ before x
new_pin before root header x unpinned few = elim (Bool-cases (int_eq root x)) [
  | inl same ↦
      let none_before : before x ≡ 0 = ap before (sym ((int_eq_iff root x).0 same)) ∙ unpinned in
      rw same (omega (arith, none_before))
  | inr other ↦ rw other (omega (arith, pin_more-add before header x few))
]

module _ {K V : Type 0} (c : Comparator K) (z : Zeros K V) (fuel : ℕ) (key : K) (value : V)
    (t : Tree K V) where
  abbrev root : ℤ
  root = next_page t.last_page_id

  abbrev empty : LeafPage K V
  empty = Leaf.init root invalid_page_id (zero_leaf z)

  empty-IsLeaf : IsLeaf c empty
  unfolding Leaf.init
  empty-IsLeaf = record {
    sorted = λ i j h k. absurd (omega arith);
    positive = omega arith;
    bounded = omega arith;
    word = omega arith;
  }

  nothing_under : (key' : K) → Leaf.lookup c key' empty ≡ none
  unfolding Leaf.init
  nothing_under key' = lookup_miss c key' empty (λ i h. absurd (omega arith))

  filling :
      (filled : LeafPage K V) × (Leaf.insert c key value empty ≡ ok filled)
      × Inserted c key value empty filled
  unfolding Leaf.init
  filling = insert-Inserted c key value empty empty-IsLeaf (omega arith) (λ h. absurd (omega arith))

  abbrev planted : LeafPage K V → Tree K V
  planted filled =
      let s = at_header c z fuel key value t in
      record s {
        last_page_id = root;
        root_page_id = root;
        nodes = at (at (at t.nodes root blank) root (leaf empty)) root (leaf filled);
        pins = sub_one root (at s.pins root 1);
        writers =
            at (at s.writers root (s.writers root + 1)) root
              (at s.writers root (s.writers root + 1) root - 1);
      }

  create_new_root-planted :
      (filled : LeafPage K V)
      → Leaf.insert c key value empty ≡ ok filled
      → IsPage root
      → create_new_root c z key value (at_header c z fuel key value t) ≡ ok (tt, planted filled)
  unfolding create_new_root new_page_unguarded new_page
  create_new_root-planted filled e h =
      assert-true
        (set_root root >> (lift (Leaf.insert c key value empty) >>= λ f. write_node root (leaf f)))
        _ h
      ∙ ap
          (λ r.
            (lift r >>= λ f. write_node root (leaf f))
              (record (planted filled) { nodes = at (at t.nodes root blank) root (leaf empty) }))
          e

  found_after :
      (filled : LeafPage K V) (key' : K)
      → Inserted c key value empty filled
      → Leaf.lookup c key' filled ≡ (if c.rank key' == c.rank key then some value else none)
  found_after filled key' inserted =
      inserted.found key'
      ∙ ap
          (λ f. if c.rank key' == c.rank key then first_value f value else Leaf.lookup c key' empty)
          (nothing_under key)
      ∙ ap (λ f. if c.rank key' == c.rank key then some value else f) (nothing_under key')

  parent_there :
      (filled : LeafPage K V)
      → Inserted c key value empty filled
      → filled.base.parent_page_id ≡ invalid_page_id
  unfolding Leaf.init
  parent_there filled inserted = inserted.parent

  counts_back :
      (before : ℤ → ℕ) (x : ℤ)
      → dropped
          (t.page_set ++ t.header_page_id ∷ [])
          (sub_one root (add_one root (add_one t.header_page_id before)))
          x
        ≡ before x - count t.page_set x
  counts_back before x = omega (
    arith,
    dropped-sub (t.page_set ++ t.header_page_id ∷ [])
        (sub_one root (add_one root (add_one t.header_page_id before))) x,
    at-sub (add_one root (add_one t.header_page_id before)) root x,
    at-add (add_one t.header_page_id before) root x,
    at-add before t.header_page_id x,
    count_last t.page_set t.header_page_id x,
  )

  pins_back :
      (before : ℤ → ℕ) (x : ℤ)
      → before root ≡ 0
      → before x + 1 < 2 ^ 16
      → dropped
          (t.page_set ++ t.header_page_id ∷ [])
          (sub_one root (at (pin_more t.header_page_id before) root 1))
          x
        ≡ before x - count t.page_set x
  pins_back before x unpinned few =
      let s = pin_more t.header_page_id before in
      omega (
        arith,
        dropped-sub (t.page_set ++ t.header_page_id ∷ []) (sub_one root (at s root 1)) x,
        at-sub (at s root 1) root x,
        count_last t.page_set t.header_page_id x,
        new_pin before root t.header_page_id x unpinned few,
      )

  -- The first insertion into an empty index, whose table has pages already, none of them with 2 ^ 16 - 1
  -- pins and the next one with none, and whose transaction has none in its page set, returns true. The pages are then a tree of one leaf, which holds the value
  -- under the key and nothing under any other. No pin, write latch or page of the page set remains.
  pub insert_record-first :
      int_eq t.root_page_id invalid_page_id ≡ true
      → ltb_ℤ t.last_page_id (pos 0) ≡ false
      → t.page_set ≡ []
      → t.pins root ≡ 0
      → ((page : ℤ) → t.pins page + 1 < 2 ^ 16)
      → (after : Tree K V) × (insert_record c z fuel key value t ≡ ok (true, after))
        × IsTree c after.nodes 0 invalid_page_id after.root_page_id
        × Holds c after.nodes 0 after.root_page_id key (some value)
        × ((key' : K)
            → c.rank key' ≢ c.rank key
            → Holds c after.nodes 0 after.root_page_id key' none)
        × (after.page_set ≡ [])
        × ((page : ℤ) → (after.pins page ≡ t.pins page) × (after.writers page ≡ t.writers page))
  unfolding insert_record
  insert_record-first no_root some_page no_pages unpinned few =
      let h = next_page-IsPage t.last_page_id some_page in
      let (filled, e, inserted) = filling in
      let s = planted filled in
      let at_new = at_self (at (at t.nodes root blank) root (leaf empty)) root (leaf filled) in
      (
        released s.page_set s,
        ap
              (λ b.
                (elim b as (λ _. M K V Bool) [
                  | true ↦
                      create_new_root c z key value >> (release_parent_write_latches >> return true)
                  | false ↦ insert_into_leaf c z fuel key value
                ])
                  (at_header c z fuel key value t))
              no_root
            ∙ next-ok (create_new_root c z key value)
                (λ _. release_parent_write_latches >> return true) (at_header c z fuel key value t)
                (create_new_root-planted filled e h)
            ∙ next-ok release_parent_write_latches (λ _. return true) s (release-released s),
        leaf_tree invalid_page_id root filled h at_new (parent_there filled inserted) inserted.leaf,
        (root, filled, here root filled at_new, found_after filled key inserted ∙ ground arith),
        λ key' other. (
          root,
          filled,
          here root filled at_new,
          found_after filled key' inserted ∙ ground arith,
        ),
        refl,
        λ page. (
          pins_back t.pins page unpinned (few page)
              ∙ omega (arith, ap (λ l. count l page) no_pages),
          counts_back t.writers page ∙ omega (arith, ap (λ l. count l page) no_pages),
        ),
      )
