-- ===== src/Query/Filters/Keys.antt =====
-- What the filters may leave out.
-- The second list is part of the first, in its order.
use incident_desk.Prelude.{
  Bool, Bool-cases, List, Option, String, Yields, Yields-ok, [], always, and_then-Yields, arith,
  false, inl, inr, none, ok, refl, select, some, true, ◌∷◌, ◌≡◌,
}
use incident_desk.Json.Defs.{Value}
use incident_desk.Query.Filters.{
  filter_columns, filter_one, filter_table, is_key, item_of, keeps_column, member, with_if,
  with_some,
}
use incident_desk.Query.Merge.{ColumnInfo, TableState}

pub data Part {ℓ κ} {A : Type ℓ} (R : A → A → Type κ) : List A → List A → Type (ℓ ⊔ κ) where
  nothing : Part R [] []
  left_out : (a : A) {xs ys : List A} → Part R xs ys → Part R (a ∷ xs) ys
  kept : (a b : A) {xs ys : List A} → R a b → Part R xs ys → Part R (a ∷ xs) (b ∷ ys)

-- A filtered table: the name is the same, the columns are part of its columns, and its key columns
-- are all there.
pub record IsCut (t cut : TableState) : Type 0 where
  pub same_name : cut.name ≡ t.name
  pub part : Part (λ (a b : ColumnInfo). b ≡ a) t.columns cut.columns
  pub keys : select is_key cut.columns ≡ select is_key t.columns

record IsCutColumns (cs cut : List ColumnInfo) : Type 0 where
  part : Part (λ (a b : ColumnInfo). b ≡ a) cs cut
  keys : select is_key cut ≡ select is_key cs

from_false : {P : Type 0} → false ≡ true → P
from_false h = cc

with_if-IsCutColumns :
    (c : ColumnInfo) (b : Bool) (cs rest : List ColumnInfo)
    → (is_key c ≡ true → b ≡ true)
    → IsCutColumns cs rest
    → IsCutColumns (c ∷ cs) (with_if c b rest)
with_if-IsCutColumns c true cs rest k i = record {
  part = kept c c refl i.part;
  keys = rw i.keys refl;
}
with_if-IsCutColumns c false cs rest k i = record {
  part = left_out c i.part;
  keys = elim (Bool-cases (is_key c)) [
    | inl key ↦ from_false (k key)
    | inr other ↦ rw other i.keys
  ];
}

keeps_column-key :
    (table : String) (selection : Value) (c : ColumnInfo)
    → Yields (λ b. is_key c ≡ true → b ≡ true) (keeps_column table selection c)
unfolding keeps_column
keeps_column-key table selection c =
    and_then-Yields (λ v. Unit {0}) _ (item_of table selection) _ (always (item_of table selection))
      λ names _.
        and_then-Yields (λ b. Unit {0}) _ (member c.name names) _ (always (member c.name names))
          λ wanted _ key. ground arith

filter_columns-IsCutColumns :
    (table : String) (selection : Value) (cs : List ColumnInfo)
    → Yields (IsCutColumns cs) (filter_columns table selection cs)
unfolding filter_columns
filter_columns-IsCutColumns table selection [] = record { part = nothing; keys = refl }
filter_columns-IsCutColumns table selection (c ∷ cs) =
    and_then-Yields _ (IsCutColumns (c ∷ cs)) (keeps_column table selection c) _
      (keeps_column-key table selection c)
      λ b key.
        and_then-Yields (IsCutColumns cs) (IsCutColumns (c ∷ cs))
          (filter_columns table selection cs) _ (filter_columns-IsCutColumns table selection cs)
          (λ rest i. with_if-IsCutColumns c b cs rest key i)

-- Nothing, or a cut of the table.
CutOf : TableState → Option TableState → Type 0
CutOf t none = Unit
CutOf t (some cut) = IsCut t cut

filter_one-CutOf :
    (selection : Value) (t : TableState) (b : Bool) → Yields (CutOf t) (filter_one selection t b)
unfolding filter_one CutOf
filter_one-CutOf selection t false = tt
filter_one-CutOf selection t true =
    and_then-Yields (IsCutColumns t.columns) (CutOf t) (filter_columns t.name selection t.columns) _
      (filter_columns-IsCutColumns t.name selection t.columns)
      λ cs i. record { same_name = refl; part = i.part; keys = i.keys }

with_some-Part :
    (t : TableState) (o : Option TableState) (ts rest : List TableState)
    → CutOf t o
    → Part IsCut ts rest
    → Part IsCut (t ∷ ts) (with_some o rest)
unfolding CutOf
with_some-Part t none ts rest c p = left_out t p
with_some-Part t (some cut) ts rest c p = kept t cut c p

filter_table-Yields :
    (selection : Value) (ts : List TableState) → Yields (Part IsCut ts) (filter_table selection ts)
unfolding filter_table
filter_table-Yields selection [] = nothing
filter_table-Yields selection (t ∷ ts) =
    and_then-Yields (λ b. Unit {0}) (Part IsCut (t ∷ ts)) (member t.name selection) _
      (always (member t.name selection))
      λ b _.
        and_then-Yields (CutOf t) (Part IsCut (t ∷ ts)) (filter_one selection t b) _
          (filter_one-CutOf selection t b)
          λ o c.
            and_then-Yields (Part IsCut ts) (Part IsCut (t ∷ ts)) (filter_table selection ts) _
              (filter_table-Yields selection ts) (λ rest p. with_some-Part t o ts rest c p)

-- Whatever the model selects, the tables that are returned are some of those there were, in their
-- order, each with some of its columns, and with all of its primary and foreign key columns.
pub filter_table-Part :
    (selection : Value) (ts out : List TableState)
    → filter_table selection ts ≡ ok out
    → Part IsCut ts out
filter_table-Part selection ts out h =
    Yields-ok (Part IsCut ts) (filter_table selection ts) h (filter_table-Yields selection ts)
