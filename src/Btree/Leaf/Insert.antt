-- ===== src/Btree/Leaf/Insert.antt =====
-- `Insert` of a leaf, on every path.
use gavin_db.Prelude.{
  ℕ, ◌+◌, ◌^◌, ◌≤◌, ◌<◌, ◌≡◌, ◌≢◌, refl, sym, ap, ◌∙◌, Option, none, some, ◌==◌, if◌then◌else◌,
  arith, inl, inr, Bool-cases, ok, err, runtime,
}
use gavin_db.Btree.Comparator.{Comparator}
use gavin_db.Btree.Leaf.{LeafPage, key_at, find_key_index, place, insert, lookup}
use gavin_db.Btree.Leaf.Search.{IsSorted, find_key_index-le, lookup_hit, lookup_miss, Lacks-of_none}
use gavin_db.Btree.Leaf.Place.{place-IsSorted, lookup-place}

-- The value that stands under a key once a value is inserted: the old one, if there is one.
abbrev pub first_value {ℓ} : {V : Type ℓ} → Option V → V → Option V
first_value none value = some value
first_value (some old) value = some old

-- How many entries an insertion adds, by what stood under the key.
abbrev pub added {ℓ} : {V : Type ℓ} → Option V → ℕ
added none = 1
added (some old) = 0

-- A leaf of the tree: its keys ascend, and its bounds fit the machine's words.
pub record IsLeaf {K V : Type 0} (c : Comparator K) (page : LeafPage K V) : Type 0 where
  pub sorted : IsSorted c page
  pub positive : 0 < page.base.max_size
  pub bounded : page.base.size ≤ page.base.max_size
  pub word : page.base.max_size < 2 ^ 32

module _ {K V : Type 0} (c : Comparator K) (key : K) (value : V) (page : LeafPage K V) where
  -- The slot at the insertion point, which the code reads even where it lies past the entries.
  abbrev pub seen_rank : ℕ
  seen_rank = c.rank (key_at page (find_key_index c key page))

  insert_new :
      0 < page.base.max_size
      → page.base.size < page.base.max_size
      → seen_rank ≢ c.rank key
      → insert c key value page ≡ ok (place key value (find_key_index c key page) page)
  unfolding insert
  insert_new positive room other =
      ground (arith, c.compare-eq (key_at page (find_key_index c key page)) key)

  insert_seen :
      0 < page.base.max_size
      → page.base.size < page.base.max_size
      → 0 < page.base.size
      → seen_rank ≡ c.rank key
      → insert c key value page ≡ ok page
  unfolding insert
  insert_seen positive room some_entry same =
      ground (arith, c.compare-eq (key_at page (find_key_index c key page)) key)

  insert_empty :
      0 < page.base.max_size
      → page.base.size ≡ 0
      → insert c key value page ≡ ok (place key value (find_key_index c key page) page)
  unfolding insert
  insert_empty positive empty = ground arith

  lookup_unseen : seen_rank ≢ c.rank key → lookup c key page ≡ none
  unfolding lookup
  lookup_unseen other = ground (arith, c.key_eq-rank (key_at page (find_key_index c key page)) key)

  -- What an insertion is to leave behind: a leaf, in which a search finds the new value under a new
  -- key, and what it found before under all others.
  pub record Inserted (page' : LeafPage K V) : Type 0 where
    pub leaf : IsLeaf c page'
    pub header : page'.base.max_size ≡ page.base.max_size
    pub parent : page'.base.parent_page_id ≡ page.base.parent_page_id
    pub grown : page'.base.size ≡ page.base.size + added (lookup c key page)
    pub found :
        (key' : K)
        → lookup c key' page' ≡ (
            if c.rank key' == c.rank key
            then first_value (lookup c key page) value
            else lookup c key' page)

  module _ (leaf : IsLeaf c page) (room : page.base.size < page.base.max_size) where
    word_bound : page.base.size + 1 < 2 ^ 64
    word_bound = let w = leaf.word in omega arith

    place-Inserted :
        lookup c key page ≡ none → Inserted (place key value (find_key_index c key page) page)
    unfolding place
    place-Inserted miss =
        let lacks = Lacks-of_none c key page leaf.sorted miss in
        record {
          leaf = record {
            sorted = place-IsSorted c key value page leaf.sorted lacks word_bound;
            positive = leaf.positive;
            bounded = omega (arith, word_bound);
            word = leaf.word;
          };
          header = refl;
          parent = refl;
          grown = rw miss (omega (arith, word_bound));
          found = λ key'. rw miss (lookup-place c key value page leaf.sorted lacks word_bound key');
        }

    page-Inserted :
        find_key_index c key page < page.base.size → seen_rank ≡ c.rank key → Inserted page
    page-Inserted inside same = record {
      leaf = leaf;
      header = refl;
      parent = refl;
      grown =
          rw (lookup_hit c key page leaf.sorted (find_key_index c key page) inside same)
            (omega arith);
      found = λ key'. elim (Bool-cases (c.rank key' == c.rank key)) [
        | inl eq ↦
            rw (eq, lookup_hit c key page leaf.sorted (find_key_index c key page) inside same)
              (lookup_hit c key' page leaf.sorted (find_key_index c key page) inside (ground arith))
        | inr ne ↦ rw ne refl
      ];
    }

    inside :
        (0 < page.base.size → c.rank (key_at page page.base.size) ≢ c.rank key)
        → 0 < page.base.size
        → seen_rank ≡ c.rank key
        → find_key_index c key page < page.base.size
    inside clean some_entry same = elim (Bool-cases (find_key_index c key page == page.base.size)) [
      | inl end ↦
          let e : find_key_index c key page ≡ page.base.size = ground arith in
          absurd (clean some_entry (sym (ap (λ (i : ℕ). c.rank (key_at page i)) e) ∙ same))
      | inr before ↦ ground (arith, find_key_index-le c key page)
    ]

    -- Inserting into a leaf with room: a new key is added in order, and an old key keeps its value.
    -- The code compares the key with the slot at the insertion point even past the last entry.
    -- Where that slot holds another key the result is what it should be.
    pub insert-Inserted :
        (0 < page.base.size → c.rank (key_at page page.base.size) ≢ c.rank key)
        → (page' : LeafPage K V) × (insert c key value page ≡ ok page') × Inserted page'
    insert-Inserted clean = elim (Bool-cases (page.base.size == 0)) [
      | inl empty ↦ (
        place key value (find_key_index c key page) page,
        insert_empty leaf.positive (ground arith),
        place-Inserted (lookup_miss c key page (λ i h. absurd (ground arith))),
      )
      | inr some_entry ↦ elim (Bool-cases (seen_rank == c.rank key)) [
        | inl seen ↦ (
          page,
          insert_seen leaf.positive room (ground arith) (ground arith),
          page-Inserted (inside clean (ground arith) (ground arith)) (ground arith),
        )
        | inr unseen ↦ (
          place key value (find_key_index c key page) page,
          insert_new leaf.positive room (ground arith),
          place-Inserted (lookup_unseen (ground arith)),
        )
      ]
    ]

  -- A full leaf refuses every key with the exception of `Insert`.
  insert_full :
      0 < page.base.max_size
      → page.base.size ≡ page.base.max_size
      → insert c key value page ≡ err runtime
  unfolding insert
  insert_full positive full = ground arith
