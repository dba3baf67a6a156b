-- ===== src/Variant/Laws.antt =====
-- The laws of a VariantMap, and of the accessors.

use unity_scopes_api.Prelude.{
  ℕ, ◌>>=◌, Result, ◌≡◌, ◌≢◌, ◌↔◌, refl, subst, Bool, Option, none, some, Text, text_eq,
  text_eq_iff, Error, ok, arith, if◌then◌else◌, inl, inr, Bool-cases, ◌++◌, ◌∷◌, [], ap,
}
use unity_scopes_api.Prelude.Int.{ℤ}
use unity_scopes_api.Variant.{
  entry_of, optional, double, get_double, Value, Fields, Items, end, field, nil, cons, int, boolean,
  str, dict, array, int64, find, insert, insert_some, text_entry, text_or_empty, find_or, erase,
  push_back, elements, get_int, get_int64, get_bool, get_string, get_dict, get_array,
}

-- Every key stands once.
abbrev pub Lacks : Text → Fields → Type 0
Lacks k end = Unit {0}
Lacks k (field j v m) = (j ≢ k) × Lacks k m

abbrev pub IsMap : Fields → Type 0
IsMap end = Unit {0}
IsMap (field k v m) = Lacks k m × IsMap m

pub find-insert :
    (k j : Text) (v : Value) (m : Fields)
    → find j (insert k v m) ≡ (if text_eq k j then some v else find j m)
unfolding find insert
find-insert k j v end = refl
find-insert k j v (field i w m) =
    ground (arith, text_eq_iff k j, text_eq_iff i k, text_eq_iff i j, find-insert k j v m)

pub find_or-insert :
    (e : Error) (k j : Text) (v : Value) (m : Fields)
    → find_or e j (insert k v m) ≡ (if text_eq k j then ok v else find_or e j m)
unfolding find_or
find_or-insert e k j v m = ground (arith, find-insert k j v m)

abbrev pub or_else : Option Value → Option Value → Option Value
or_else none o = o
or_else (some v) o = some v

pub or_else-none : (o : Option Value) → or_else o none ≡ o
or_else-none none = refl
or_else-none (some v) = refl

pub find-insert_some :
    (k j : Text) (o : Option Value) (m : Fields)
    → find j (insert_some k o m) ≡ (if text_eq k j then or_else o (find j m) else find j m)
unfolding insert_some
find-insert_some k j none m = ground arith
find-insert_some k j (some v) m = find-insert k j v m

pub text_again : (s : Text) → text_or_empty (text_entry s) ≡ ok s
unfolding get_string
text_again [] = refl
text_again (c ∷ s) = refl

pub ruleset entry_laws = (find-insert, find-insert_some, find_or-insert, or_else-none)

pub find_or-found :
    (e : Error) (k : Text) (v : Value) (m : Fields) → find k m ≡ some v → find_or e k m ≡ ok v
unfolding find_or
find_or-found e k v m h = ground (arith, h)

find-Lacks : (k : Text) (m : Fields) → Lacks k m → find k m ≡ none
unfolding find
find-Lacks k end h = refl
find-Lacks k (field j v m) h = ground (arith, text_eq_iff j k, find-Lacks k m h.1, h.0)

pub find-erase :
    (k j : Text) (m : Fields)
    → IsMap m
    → find j (erase k m) ≡ (if text_eq k j then none else find j m)
unfolding find erase
find-erase k j end h = ground arith
find-erase k j (field i w m) h = ground (
  arith,
  text_eq_iff k j,
  text_eq_iff i k,
  text_eq_iff i j,
  find-erase k j m h.1,
  find-Lacks i m h.0,
)

Lacks-insert : (i k : Text) (v : Value) (m : Fields) → k ≢ i → Lacks i m → Lacks i (insert k v m)
unfolding insert
Lacks-insert i k v end h l = (h, tt)
Lacks-insert i k v (field j w m) h l = ground (arith, Lacks-insert i k v m h l.1)

pub insert-IsMap : (k : Text) (v : Value) (m : Fields) → IsMap m → IsMap (insert k v m)
unfolding insert
insert-IsMap k v end h = (tt, tt)
insert-IsMap k v (field j w m) h = elim (Bool-cases (text_eq j k)) [
  | inl same ↦
      rw (insert, same) (let e = (text_eq_iff j k).0 same in subst (λ i. Lacks i m × IsMap m) e h)
  | inr other ↦
      rw (insert, other)
        (
          Lacks-insert j k v m (ground (arith, text_eq_iff j k, text_eq_iff k j)) h.0,
          insert-IsMap k v m h.1,
        )
]

Lacks-erase : (i k : Text) (m : Fields) → Lacks i m → Lacks i (erase k m)
unfolding erase
Lacks-erase i k end l = tt
Lacks-erase i k (field j w m) l = ground (arith, Lacks-erase i k m l.1)

pub erase-IsMap : (k : Text) (m : Fields) → IsMap m → IsMap (erase k m)
unfolding erase
erase-IsMap k end h = tt
erase-IsMap k (field j w m) h = ground (arith, Lacks-erase j k m h.0, erase-IsMap k m h.1)

pub elements-push_back : (a : Items) (v : Value) → elements (push_back a v) ≡ elements a ++ v ∷ []
unfolding push_back
elements-push_back nil v = refl
elements-push_back (cons w a) v = ap (λ l. w ∷ l) (elements-push_back a v)

-- An accessor succeeds exactly on the values of its kind, and gives back what was stored.
pub accessors_exact :
    (v : Value)
    → ((s : Text) → (get_string v ≡ ok s) ↔ (v ≡ str s))
      × ((b : Bool) → (get_bool v ≡ ok b) ↔ (v ≡ boolean b))
      × ((n : ℤ) → (get_int v ≡ ok n) ↔ (v ≡ int n))
      × ((n : ℤ) → (get_int64 v ≡ ok n) ↔ (v ≡ int64 n))
      × ((m : Fields) → (get_dict v ≡ ok m) ↔ (v ≡ dict m))
      × ((a : Items) → (get_array v ≡ ok a) ↔ (v ≡ array a))
unfolding get_string get_bool get_int get_int64 get_dict get_array
accessors_exact v = (
  λ s. ground arith,
  λ b. ground arith,
  λ n. ground arith,
  λ n. ground arith,
  λ m. ground arith,
  λ a. ground arith,
)

optional_again :
    {A : Type 0} (wrap : A → Value) (get : Value → Result A) (o : Option A)
    → ((a : A) → get (wrap a) ≡ ok a)
    → optional get (entry_of wrap o) ≡ ok o
optional_again wrap get none h = refl
optional_again wrap get (some a) h = ap (λ r. r >>= λ b. ok (some b)) (h a)

pub text_optional : (o : Option Text) → optional get_string (entry_of str o) ≡ ok o
unfolding get_string
text_optional o = optional_again str get_string o (λ a. refl)

pub flag_optional : (o : Option Bool) → optional get_bool (entry_of boolean o) ≡ ok o
unfolding get_bool
flag_optional o = optional_again boolean get_bool o (λ a. refl)

pub array_optional : (o : Option Items) → optional get_array (entry_of array o) ≡ ok o
unfolding get_array
array_optional o = optional_again array get_array o (λ a. refl)

pub double_optional : (o : Option ℕ) → optional get_double (entry_of double o) ≡ ok o
unfolding get_double
double_optional o = optional_again double get_double o (λ a. refl)

pub ruleset optional_laws = (text_optional, flag_optional, array_optional, double_optional)
