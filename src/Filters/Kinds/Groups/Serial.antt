-- ===== src/Filters/Kinds/Groups/Serial.antt =====
-- A list of filters survives the trip with its groups.
use unity_scopes_api.Prelude.{◌≡◌, ℕ, List, [], ◌∷◌, Option, none, some, Text, ok}
use unity_scopes_api.Prelude.Dict.{find}
use unity_scopes_api.Prelude.Doubles.{Doubles}
use unity_scopes_api.Filters.Kinds.{FilterGroup, Filter, validate_display_hints}
use unity_scopes_api.Filters.Kinds.Serial.{IsMade, IsHint, without_icons}
use unity_scopes_api.Filters.Kinds.Groups.{Groups}

-- The object at an address is the one of the heap.
abbrev pub IsHeld : (ℕ → FilterGroup) → Option FilterGroup → Type 0
IsHeld heap none = Unit {0}
IsHeld heap (some g) = heap g.address ≡ g

abbrev pub SameGroup : Option FilterGroup → Option FilterGroup → Type 0
SameGroup none none = Unit {0}
SameGroup (some g) (some h) = (g.id ≡ h.id) × (g.label ≡ h.label)
SameGroup none (some h) = ⊥
SameGroup (some g) none = ⊥

-- Equal, but for the addresses of the groups and for the icons, which the second has not.
abbrev pub SameFilter : Filter → Filter → Type 0
SameFilter f g =
    (g.title ≡ f.title)
    × (g.display_hints ≡ f.display_hints)
    × (g.specific ≡ without_icons f.specific)
    × SameGroup f.group g.group

abbrev pub SameFilters : List Filter → List Filter → Type 0
SameFilters [] [] = Unit {0}
SameFilters (f ∷ fs) (g ∷ gs) = SameFilter f g × SameFilters fs gs
SameFilters [] (g ∷ gs) = ⊥
SameFilters (f ∷ fs) [] = ⊥

abbrev HasGroup : Groups → Option FilterGroup → Type 0
HasGroup groups none = Unit {0}
HasGroup groups (some g) =
    (h : FilterGroup) × (find g.id groups ≡ some h) × (g.id ≡ h.id) × (g.label ≡ h.label)

-- What was looked up before is held, and among the groups that were read.
abbrev AreRead : (ℕ → FilterGroup) → Groups → Groups → Type 0
AreRead heap lookup groups =
    (id : Text) (g : FilterGroup)
    → find id lookup ≡ some g
    → (heap g.address ≡ g) × (g.id ≡ id) × HasGroup groups (some g)

-- What a filter must be for its trip.
abbrev pub IsSound : Doubles → (ℕ → FilterGroup) → Filter → Type 0
IsSound D heap f =
    IsMade D f.specific
    × IsHint f.display_hints
    × (validate_display_hints f.specific f.display_hints ≡ ok tt)
    × IsHeld heap f.group
