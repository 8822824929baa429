-- ===== src/Tree/Insert.antt =====
-- `InternalInsertRecord` where the leaf of the key does not become full.
use gavin_db.Prelude.{
  ℕ, ◌+◌, ◌-◌, ◌^◌, ◌≤◌, ◌<◌, ◌≡◌, ◌≢◌, refl, ap, ◌∙◌, true, false, Bool, not, Option, none, some,
  [], ◌∷◌, ◌++◌, ok, err, arith, leb, ◌==◌, if◌then◌else◌,
}
use gavin_db.Prelude.Int.{ℤ, int_eq}
use gavin_db.Btree.Comparator.{Comparator}
use gavin_db.Btree.Page.{invalid_page_id}
use gavin_db.Btree.Leaf.{LeafPage}
use gavin_db.Btree.Leaf
use gavin_db.Btree.Leaf.Insert.{first_value, added, insert-Inserted}
use gavin_db.Tree.State.{
  Tree, Zeros, leaf, M, ◌>>=◌, ◌>>◌, return, at, pin_more, lift, leaf_at, fetch_page, write_node,
  w_unlatch, unpin_page,
}
use gavin_db.Tree.Descent.{
  insert_op, descend, latch_root, search_leaf_page, release_parent_write_latches,
}
use gavin_db.Tree.Insertion.{insert_record, insert_into_leaf, create_new_root, split_and_rise}
use gavin_db.Tree.Content.{IsPage, IsTree, Belongs, IsTree-IsPage}
use gavin_db.Tree.Counts.{one, one-bit, at-add, at-sub, pin_more-add}
use gavin_db.Tree.Search.{assert-true, next-ok, leaf_at-ok}
use gavin_db.Tree.Crabbing.{Held, with_latches, count, dropped, dropped-sub, release-released}
use gavin_db.Tree.InsertDescent.{Reached, descend-Reached}
use gavin_db.Tree.Replace.{Belongs-IsLeaf, Holds, Holds-replaced, IsTree-replaced}

pub IsPage-valid : (page : ℤ) → IsPage page → int_eq page invalid_page_id ≡ false
IsPage-valid page h = ground arith

abbrev pub is_new {ℓ} : {V : Type ℓ} → Option V → Bool
is_new none = true
is_new (some old) = false

added-le : {V : Type 0} (found : Option V) → added found ≤ 1
added-le none = omega arith
added-le (some old) = omega arith

keeps_room :
    {K V : Type 0} (filled : LeafPage K V)
    → filled.base.size < filled.base.max_size
    → leb filled.base.max_size filled.base.size ≡ false
keeps_room filled room = ground arith

grown-is_new :
    {V : Type 0} (found : Option V) (before after : ℕ)
    → after ≡ before + added found
    → not (after == before) ≡ is_new found
grown-is_new none before after h = ground arith
grown-is_new (some old) before after h = ground arith

abbrev sub_one : ℤ → (ℤ → ℕ) → ℤ → ℕ
sub_one page f = at f page (f page - 1)

pub no_parent : (parent : ℤ) → false ≡ true → IsPage parent
no_parent parent h = absurd (cc)

module _ {K V : Type 0} (c : Comparator K) (z : Zeros K V) (fuel : ℕ) (key : K) (value : V)
    (t : Tree K V) where
  abbrev pub at_header : Tree K V
  at_header = record t {
    page_set = t.page_set ++ t.header_page_id ∷ [];
    pins = pin_more t.header_page_id t.pins;
    writers = at t.writers t.header_page_id (t.writers t.header_page_id + 1);
  }

  -- With the header latched and in the page set, and the root fetched and latched.
  abbrev pub at_root : Tree K V
  at_root = record t {
    page_set = t.page_set ++ t.header_page_id ∷ [];
    pins = pin_more t.root_page_id (pin_more t.header_page_id t.pins);
    writers =
        at (at t.writers t.header_page_id (t.writers t.header_page_id + 1)) t.root_page_id
          (at t.writers t.header_page_id (t.writers t.header_page_id + 1) t.root_page_id + 1);
  }

  pub at_root-Held : t.page_set ≡ [] → Held 2 t.pins t.writers t.root_page_id at_root
  at_root-Held e = record {
    pinned = λ x few.
        let header = pin_more-add t.pins t.header_page_id x (omega (arith, few)) in
        omega (
          arith,
          header,
          pin_more-add (pin_more t.header_page_id t.pins) t.root_page_id x
              (omega (arith, few, header, one-bit t.header_page_id x)),
          ap (λ l. count (l ++ t.header_page_id ∷ []) x) e,
        );
    short = λ x.
        omega (arith, one-bit t.header_page_id x, ap (λ l. count (l ++ t.header_page_id ∷ []) x) e);
    latched = λ x. omega (
      arith,
      at-add (at t.writers t.header_page_id (t.writers t.header_page_id + 1)) t.root_page_id x,
      at-add t.writers t.header_page_id x,
      ap (λ l. count (l ++ t.header_page_id ∷ []) x) e,
    );
  }

  module _ (height : ℕ) (parent : ℤ) (tree : IsTree c t.nodes height parent t.root_page_id)
      (enough : height < fuel) where
    abbrev pub reached :
        t.page_set ≡ []
        → Reached c key
            (2 + height)
            t.pins
            t.writers
            height
            t.root_page_id
            at_root
            (descend c fuel key insert_op t.root_page_id false at_root)
    reached e =
        descend-Reached c key (2 + height) t.pins t.writers fuel 2 false at_root tree enough
          (no_parent parent) (omega arith) (at_root-Held e)

    -- What follows the descent, from its end.
    abbrev finish : ℤ → LeafPage K V → LeafPage K V → M K V Bool
    finish page node filled =
        w_unlatch page >> (unpin_page page >> return (not (filled.base.size == node.base.size)))

    abbrev after : LeafPage K V → ℤ → LeafPage K V → M K V Bool
    after node page filled =
        write_node page (leaf filled) >> (elim (leb filled.base.max_size filled.base.size) [
          | true ↦ split_and_rise c z fuel page
          | false ↦ release_parent_write_latches >> finish page node filled
        ])

    abbrev fill : ℤ → M K V Bool
    fill page = leaf_at page >>= λ node. lift (Leaf.insert c key value node) >>= after node page

    insert_record-fill :
        insert_record c z fuel key value t
        ≡ (descend c fuel key insert_op t.root_page_id false >>= fill) at_root
    unfolding insert_record insert_into_leaf search_leaf_page latch_root
    insert_record-fill =
        ap
          (λ b.
            (elim b as (λ _. M K V Bool) [
              | true ↦
                  create_new_root c z key value >> (release_parent_write_latches >> return true)
              | false ↦ insert_into_leaf c z fuel key value
            ])
              at_header)
          (IsPage-valid t.root_page_id (IsTree-IsPage c t.nodes tree))
        ∙ ap (λ r. elim r [ err e ↦ err e | ok (page, t') ↦ fill page t' ])
            (assert-true
              (fetch_page t.root_page_id
                >> (latch_root insert_op t.root_page_id
                    >> descend c fuel key insert_op t.root_page_id false))
              at_header (IsTree-IsPage c t.nodes tree))

    abbrev written : Tree K V → ℤ → LeafPage K V → Tree K V
    written s page filled = record s {
      nodes = at s.nodes page (leaf filled);
      page_set = [];
      pins = sub_one page (dropped s.page_set s.pins);
      writers = sub_one page (dropped s.page_set s.writers);
    }

    -- The end of an insertion into a leaf that keeps room: the leaf is written, and all is released.
    module _ (page : ℤ) (node filled : LeafPage K V) (s : Tree K V)
        (at_page : s.nodes page ≡ leaf node) where
      fill-kept :
          Leaf.insert c key value node ≡ ok filled
          → filled.base.size < filled.base.max_size
          → fill page s ≡ ok (not (filled.base.size == node.base.size), written s page filled)
      fill-kept e room =
          let filled_in = record s { nodes = at s.nodes page (leaf filled) } in
          next-ok (leaf_at page) (λ n. lift (Leaf.insert c key value n) >>= after n page) s
            (leaf_at-ok page s node at_page)
          ∙ ap (λ r. (lift r >>= after node page) s) e
          ∙ ap
              (λ (b : Bool).
                (elim b as (λ _. M K V Bool) [
                  | true ↦ split_and_rise c z fuel page
                  | false ↦ release_parent_write_latches >> finish page node filled
                ])
                  filled_in)
              (keeps_room filled room)
          ∙ next-ok release_parent_write_latches (λ _. finish page node filled) filled_in
              (release-released filled_in)

      -- The counts are what they were before the operation.
      fill_counts :
          (before counts : ℤ → ℕ) (x : ℤ)
          → counts x ≡ before x + count s.page_set x + one page x
          → sub_one page (dropped s.page_set counts) x ≡ before x
      fill_counts before counts x h =
          omega
            (arith, at-sub (dropped s.page_set counts) page x, dropped-sub s.page_set counts x, h)

    -- An insertion, in a tree of a height below the rounds, with no page in the page set and no page
    -- whose pins could wrap with as many more as the height and two, whose leaf, the one that the key belongs to, has room for two entries more and no stale copy of the
    -- key behind its last one, returns, and returns whether the key is new. The pages are a tree
    -- again, which holds under the key the value if the key is new, the old one if it is not, and
    -- under each other key what it held before. No pin, write latch or page of the page set remains.
    pub insert_record-Holds :
        t.page_set ≡ []
        → ((page : ℤ) → t.pins page + height + 2 < 2 ^ 16)
        → ((target : ℤ) (node : LeafPage K V)
            → Belongs c t.nodes key height t.root_page_id target node
            → (node.base.size + 1 < node.base.max_size)
              × (0 < node.base.size → c.rank (Leaf.key_at node node.base.size) ≢ c.rank key))
        → (found : Option V) × (after : Tree K V) × Holds c t.nodes height t.root_page_id key found
          × (insert_record c z fuel key value t ≡ ok (is_new found, after))
          × IsTree c after.nodes height parent after.root_page_id
          × ((key' : K) (found' : Option V)
              → Holds c t.nodes height t.root_page_id key' found'
              → Holds c after.nodes height after.root_page_id key'
                  (if c.rank key' == c.rank key then first_value found' value else found'))
          × (after.page_set ≡ [])
          × ((page : ℤ) → (after.pins page ≡ t.pins page) × (after.writers page ≡ t.writers page))
    insert_record-Holds no_pages few room =
        let r = reached no_pages in
        let s = with_latches at_root r.new_pins r.new_writers r.pages in
        let is_leaf = Belongs-IsLeaf c t.nodes key r.target r.node tree r.belongs in
        let (two_more, clean) = room r.target r.node r.belongs in
        let (filled, e, inserted) =
          insert-Inserted c key value r.node is_leaf (omega arith) clean in
        let grown = inserted.grown in
        (
          Leaf.lookup c key r.node,
          written s r.target filled,
          (r.target, r.node, r.belongs, refl),
          insert_record-fill
              ∙ next-ok (descend c fuel key insert_op t.root_page_id false) fill at_root r.result
              ∙ fill-kept r.target r.node filled s r.at_target e
                  (omega (arith, inserted.header, added-le (Leaf.lookup c key r.node)))
              ∙ ap (λ b. ok (b, written s r.target filled))
                  (grown-is_new (Leaf.lookup c key r.node) r.node.base.size filled.base.size grown),
          IsTree-replaced c t.nodes r.target r.node filled r.at_target inserted.leaf inserted.parent
              tree,
          Holds-replaced c t.nodes key value r.target r.node filled tree r.belongs r.at_target
              inserted,
          refl,
          λ page. (
            fill_counts r.target r.node filled s r.at_target t.pins s.pins page
                (r.held.pinned page (omega (arith, few page))),
            fill_counts r.target r.node filled s r.at_target t.writers s.writers page
                (r.held.latched page),
          ),
        )
