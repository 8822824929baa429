-- ===== src/Query/Creates.antt =====
-- What the binder makes of a CREATE TABLE (`BindCreate` of src/query/binder/binder.cpp), against binding the
-- columns first and gathering the keys then.
use gavin_db.Prelude.{
  ◌≡◌, refl, ap, sym, ◌∙◌, Bool, true, false, not, ltb, List, [], ◌∷◌, ◌++◌, length, length-append,
  append_assoc, append-nil, Result, ok, err, not_implemented, guard, ◌>>=◌, ◌>>◌, if◌then◌else◌,
  arith, Bool-cases, inl, inr, >>=-returned, ok-injective, lt→ltb, ltb→lt,
}
use gavin_db.Meta.Columns.{Column}
use gavin_db.Meta.Catalog.{Name}
use gavin_db.Query.Statements.{ColumnDefinition, CreateStatement}
use gavin_db.Query.Binder.{bind_column_definition, bind_columns, bind_create}
use gavin_db.Query.Planner.{for_each}

-- The names of the columns that are declared a primary key.
unfoldable pub key_names : List ColumnDefinition → List Column → List Name
key_names (def ∷ defs) (col ∷ cols) =
    let rest = key_names defs cols in if def.has_primary_key then (col.column_name ∷ rest) else rest
key_names [] _ = []
key_names (_ ∷ _) [] = []

abbrev checked : List Name → List Column → Result (List Column × List Name)
checked keys columns = if ltb 1 (length keys) then err not_implemented else ok (columns, keys)

abbrev with_key : ColumnDefinition → Column → List Name → List Name
with_key def col keys = if def.has_primary_key then keys ++ (col.column_name ∷ []) else keys

with_key-key_names :
    (def : ColumnDefinition) (defs : List ColumnDefinition) (col : Column) (cols : List Column)
    (keys : List Name)
    → with_key def col keys ++ key_names defs cols ≡ keys ++ key_names (def ∷ defs) (col ∷ cols)
unfolding key_names
with_key-key_names def defs col cols keys = either def.has_primary_key
  where
    either :
        (b : Bool)
        → (if b then keys ++ (col.column_name ∷ []) else keys) ++ key_names defs cols
          ≡ keys ++ (if b then (col.column_name ∷ key_names defs cols) else key_names defs cols)
    either true = append_assoc keys (col.column_name ∷ []) (key_names defs cols)
    either false = refl

too_many :
    (keys more : List Name) → ltb 1 (length keys) ≡ true → ltb 1 (length (keys ++ more)) ≡ true
too_many keys more h =
    lt→ltb 1 (length (keys ++ more))
      (omega (arith, length-append keys more, ltb→lt 1 (length keys) h))

bind_columns-checked :
    (defs : List ColumnDefinition) (cols : List Column) (columns : List Column) (keys : List Name)
    → for_each bind_column_definition defs ≡ ok cols
    → ltb 1 (length keys) ≡ false
    → bind_columns defs columns keys ≡ checked (keys ++ key_names defs cols) (columns ++ cols)
unfolding bind_columns for_each key_names
bind_columns-checked [] cols columns keys h few =
    ap (λ cs. ok (cs, keys)) (sym (append-nil columns) ∙ ap (λ cs. columns ++ cs) (ok-injective h))
    ∙ sym (ap (λ b. if b then err not_implemented else ok (columns ++ cols, keys)) few)
    ∙ ap (λ ks. checked ks (columns ++ cols)) (sym (append-nil keys))
bind_columns-checked (def ∷ defs) cols columns keys h few =
    let (col, bound, rest) =
      >>=-returned (bind_column_definition def)
        (λ c. for_each bind_column_definition defs >>= λ cs. ok (c ∷ cs)) cols h in
    let (others, all_bound, made) =
      >>=-returned (for_each bind_column_definition defs) (λ cs. ok (col ∷ cs)) cols rest in
    ap
      (λ r. r >>= λ c.
        guard (not (ltb 1 (length (with_key def c keys)))) not_implemented
        >> bind_columns defs (columns ++ (c ∷ [])) (with_key def c keys))
      bound
    ∙ (elim (Bool-cases (ltb 1 (length (with_key def col keys)))) [
      | inl many ↦
          ap
            (λ b.
              guard (not b) not_implemented
              >> bind_columns defs (columns ++ (col ∷ [])) (with_key def col keys))
            many
          ∙ sym (
              ap
                (λ b.
                  if b
                  then err not_implemented
                  else ok
                      (columns ++ (col ∷ others), with_key def col keys ++ key_names defs others))
                (too_many (with_key def col keys) (key_names defs others) many))
      | inr room ↦
          ap
            (λ b.
              guard (not b) not_implemented
              >> bind_columns defs (columns ++ (col ∷ [])) (with_key def col keys))
            room
          ∙ bind_columns-checked defs others (columns ++ (col ∷ [])) (with_key def col keys)
              all_bound room
          ∙ ap (checked (with_key def col keys ++ key_names defs others))
              (append_assoc columns (col ∷ []) others)
    ])
    ∙ ap (λ ks. checked ks (columns ++ (col ∷ others)))
        (with_key-key_names def defs col others keys)
    ∙ ap (λ cs. checked (keys ++ key_names (def ∷ defs) cs) (columns ++ cs)) (ok-injective made)

-- The statement that a table's columns and keys make.
abbrev pub created : Name → List Column → List Name → CreateStatement
created table cols keys = record { table_name = table; columns = cols; primary_key = keys }

-- Where every column definition can be bound, a CREATE TABLE is bound to its columns in their order, with the
-- name of the column that is a primary key, if there is one; with two or more such columns, not_implemented.
pub bind_create-columns :
    (table : Name) (defs : List ColumnDefinition) (cols : List Column)
    → for_each bind_column_definition defs ≡ ok cols
    → bind_create table defs ≡ (
        if ltb 1 (length (key_names defs cols))
        then err not_implemented
        else ok (created table cols (key_names defs cols)))
unfolding bind_create
bind_create-columns table defs cols h =
    ap (λ r. r >>= λ (columns, keys). ok (created table columns keys))
      (bind_columns-checked defs cols [] [] h refl)
    ∙ either (ltb 1 (length (key_names defs cols)))
  where
    either :
        (b : Bool)
        → ((if b then err not_implemented else ok (cols, key_names defs cols))
            >>= λ (columns, keys). ok (created table columns keys))
          ≡ (if b then err not_implemented else ok (created table cols (key_names defs cols)))
    either true = refl
    either false = refl
