-- ===== src/Results/Columns.antt =====
-- Column layouts of a preview: src/scopes/internal/ColumnLayoutImpl.cpp.
use unity_scopes_api.Prelude.{
  ◌≡◌, ◌≢◌, ◌↔◌, refl, ℕ, zero, suc, leb, Bool, true, false, ◌||◌, not, List, [], ◌∷◌, ◌++◌, Option,
  none, some, Text, text_eq, codes, Result, ok, invalid_argument, logic_error, ◌>>=◌, ◌>>◌,
  throw_if, length, All, arith, if◌then◌else◌,
}
use unity_scopes_api.Prelude.Int.{ℤ, pos, negsuc, ltb_ℤ, eqb_ℤ}
use unity_scopes_api.Variant.{
  Fields, Items, end, nil, cons, str, array, find_or, find, insert, get_array, get_string,
}

pub record ColumnLayout : Type 0 where
  pub num_of_columns : ℤ
  pub columns : List (List Text)

abbrev max_number_of_columns : ℤ
max_number_of_columns = pos 1024

unfoldable pub make_layout : ℤ → Result ColumnLayout
make_layout n = do
  throw_if (not (ltb_ℤ (pos 0) n) || ltb_ℤ max_number_of_columns n) invalid_argument
  ok (record { num_of_columns = n; columns = [] })

unfoldable pub add_column : List Text → ColumnLayout → Result ColumnLayout
add_column widgets l = do
  throw_if (not (ltb_ℤ (pos (length l.columns)) l.num_of_columns)) logic_error
  ok (record l { columns = l.columns ++ widgets ∷ [] })

abbrev nth : ℕ → List (List Text) → Option (List Text)
nth i [] = none
nth zero (c ∷ cs) = some c
nth (suc i) (c ∷ cs) = nth i cs

-- `none` is the read in front of the vector that a negative index comes to.
unfoldable pub column : ℤ → ColumnLayout → Result (Option (List Text))
column (negsuc n) l = ok none
column (pos i) l = do throw_if (leb (length l.columns) i) invalid_argument; ok (nth i l.columns)

unfoldable pub serialize_widgets : List Text → Items
serialize_widgets [] = nil
serialize_widgets (w ∷ ws) = cons (str w) (serialize_widgets ws)

unfoldable pub serialize_columns : List (List Text) → Items
unfolding serialize_widgets
serialize_columns [] = nil
serialize_columns (c ∷ cs) = cons (array (serialize_widgets c)) (serialize_columns cs)

unfoldable pub serialize : ColumnLayout → Fields
unfolding serialize_columns insert
serialize l = insert (codes "column_data") (array (serialize_columns l.columns)) end

unfoldable pub read_widgets : Items → Result (List Text)
unfolding get_string
read_widgets nil = ok []
read_widgets (cons v a) = do w ← get_string v; ws ← read_widgets a; ok (w ∷ ws)

unfoldable pub read_columns : Items → Result (List (List Text))
unfolding get_array read_widgets
read_columns nil = ok []
read_columns (cons v a) = do ws ← get_array v; c ← read_widgets ws; cs ← read_columns a; ok (c ∷ cs)

unfoldable pub create : Fields → Result ColumnLayout
unfolding find_or get_array read_columns
create m = do
  v ← find_or invalid_argument (codes "column_data") m
  a ← get_array v
  cs ← read_columns a
  ok (record { num_of_columns = pos (length cs); columns = cs })

abbrev has_number : ℤ → List ℤ → Bool
has_number n [] = false
has_number n (m ∷ ms) = if eqb_ℤ m n then true else has_number n ms

-- The loop, with the sizes of the layouts so far.
unfoldable pub validate_each : List ColumnLayout → List ℤ → Result (Unit {0})
validate_each [] seen = ok tt
validate_each (l ∷ ls) seen = do
  throw_if (not (eqb_ℤ (pos (length l.columns)) l.num_of_columns)) logic_error
  throw_if (has_number l.num_of_columns seen) logic_error
  validate_each ls (pos (length l.columns) ∷ seen)

unfoldable pub validate_layouts : List ColumnLayout → Result (Unit {0})
unfolding validate_each
validate_layouts ls = validate_each ls []

widgets_again : (ws : List Text) → read_widgets (serialize_widgets ws) ≡ ok ws
unfolding read_widgets serialize_widgets get_string
widgets_again [] = refl
widgets_again (w ∷ ws) = rw (widgets_again ws) refl

columns_again : (cs : List (List Text)) → read_columns (serialize_columns cs) ≡ ok cs
unfolding read_columns serialize_columns get_array
columns_again [] = refl
columns_again (c ∷ cs) = rw (widgets_again c, columns_again cs) refl

-- Every column that was announced was added.
abbrev pub IsComplete : ColumnLayout → Type 0
IsComplete l = l.num_of_columns ≡ pos (length l.columns)

abbrev pub AreDistinct : List ColumnLayout → Type 0
AreDistinct [] = Unit {0}
AreDistinct (l ∷ ls) = All (λ k. length k.columns ≢ length l.columns) ls × AreDistinct ls

abbrev Avoid : List ColumnLayout → List ℤ → Type 0
Avoid ls seen = All (λ k. has_number (pos (length k.columns)) seen ≡ false) ls

Avoid-more :
    (ls : List ColumnLayout) (n : ℕ) (seen : List ℤ)
    → Avoid ls (pos n ∷ seen) ↔ (All (λ k. length k.columns ≢ n) ls × Avoid ls seen)
Avoid-more [] n seen = ground arith
Avoid-more (l ∷ ls) n seen = ground (arith, Avoid-more ls n seen)

accepts_each :
    (ls : List ColumnLayout) (seen : List ℤ)
    → (validate_each ls seen ≡ ok tt) ↔ (All IsComplete ls × AreDistinct ls × Avoid ls seen)
unfolding validate_each
accepts_each [] seen = ground arith
accepts_each (l ∷ ls) seen =
    ground (
      arith,
      accepts_each ls (pos (length l.columns) ∷ seen),
      Avoid-more ls (length l.columns) seen,
    )

all-Avoid : (ls : List ColumnLayout) → Avoid ls []
all-Avoid [] = tt
all-Avoid (l ∷ ls) = (refl, all-Avoid ls)

-- A list of layouts is accepted exactly if each has all the columns that it was made for, and no two
-- have the same number of columns.
pub validate_layouts-accepts :
    (ls : List ColumnLayout) → (validate_layouts ls ≡ ok tt) ↔ (All IsComplete ls × AreDistinct ls)
unfolding validate_layouts
validate_layouts-accepts ls = ground (arith, accepts_each ls [], all-Avoid ls)

-- A layout that has all its columns is read back the same from what it serialises to.
create-serialize_layout : (l : ColumnLayout) → IsComplete l → create (serialize l) ≡ ok l
unfolding create serialize text_eq find_or find insert get_array
create-serialize_layout l e = ground (arith, e, columns_again l.columns)
