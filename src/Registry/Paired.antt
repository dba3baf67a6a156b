-- ===== src/Registry/Paired.antt =====
-- The two maps of the registry name the same scopes; what replacing entries keeps of that.
use unity_scopes_api.Prelude.{
  ◌≡◌, refl, Bool, true, false, List, [], ◌∷◌, some, Text, text_eq, text_eq_iff, arith, is_some,
  if◌then◌else◌,
}
use unity_scopes_api.Prelude.Dict.{
  find, insert_new, erase, IsMap, Lacks, find-erase, find-insert_new, insert_new-IsMap, erase-IsMap,
}
use unity_scopes_api.Prelude.Int.{ℤ}
use unity_scopes_api.ScopeProcess.{ScopeProcess}
use unity_scopes_api.Registry.{Registry, replace, death_in}

-- What the registry keeps of its maps, stated for each id.
pub record IsPaired {ℓ} {M : Type ℓ} (id : Text) (r : Registry M) : Type 0 where
  pub scopes_map : IsMap r.scopes
  pub processes_map : IsMap r.processes
  pub paired : is_some (find id r.scopes) ≡ is_some (find id r.processes)

pub is_some-replace :
    (k j : Text) (p : ScopeProcess) (m : List (Text × ScopeProcess))
    → is_some (find j (replace k p m)) ≡ is_some (find j m)
unfolding find replace
is_some-replace k j p [] = refl
is_some-replace k j p ((i, q) ∷ m) = ground (arith, is_some-replace k j p m)

Lacks-replace :
    (k j : Text) (p : ScopeProcess) (m : List (Text × ScopeProcess))
    → Lacks j m
    → Lacks j (replace k p m)
unfolding replace
Lacks-replace k j p [] h = tt
Lacks-replace k j p ((i, q) ∷ m) h = ground (arith, Lacks-replace k j p m h.1)

pub replace-IsMap :
    (k : Text) (p : ScopeProcess) (m : List (Text × ScopeProcess)) → IsMap m → IsMap (replace k p m)
unfolding replace
replace-IsMap k p [] h = tt
replace-IsMap k p ((i, q) ∷ m) h =
    ground (arith, Lacks-replace k i p m h.0, replace-IsMap k p m h.1)

pub is_some-death_in :
    (pid : ℤ) (j : Text) (m : List (Text × ScopeProcess))
    → is_some (find j (death_in pid m)) ≡ is_some (find j m)
unfolding find death_in
is_some-death_in pid j [] = refl
is_some-death_in pid j ((i, q) ∷ m) = ground (arith, is_some-death_in pid j m)

Lacks-death_in :
    (pid : ℤ) (j : Text) (m : List (Text × ScopeProcess)) → Lacks j m → Lacks j (death_in pid m)
unfolding death_in
Lacks-death_in pid j [] h = tt
Lacks-death_in pid j ((i, q) ∷ m) h = ground (arith, Lacks-death_in pid j m h.1)

pub death_in-IsMap : (pid : ℤ) (m : List (Text × ScopeProcess)) → IsMap m → IsMap (death_in pid m)
unfolding death_in
death_in-IsMap pid [] h = tt
death_in-IsMap pid ((i, q) ∷ m) h =
    ground (arith, Lacks-death_in pid i m h.0, death_in-IsMap pid m h.1)

-- A map in which an entry is erased, if it is there, and set anew.
module _ {κ} {V : Type κ} where
  pub renewed-IsMap :
      (id : Text) (v : V) (known : Bool) (m : List (Text × V))
      → IsMap m
      → IsMap (insert_new id v (if known then erase id m else m))
  renewed-IsMap id v true m h = insert_new-IsMap id v (erase id m) (erase-IsMap id m h)
  renewed-IsMap id v false m h = insert_new-IsMap id v m h

  pub find-renewed :
      (id j : Text) (v : V) (m : List (Text × V))
      → IsMap m
      → find j (insert_new id v (if is_some (find id m) then erase id m else m))
        ≡ (if text_eq id j then some v else find j m)
  find-renewed id j v m h = ground (
    arith,
    find-insert_new id j v m,
    find-insert_new id j v (erase id m),
    find-erase id j m h,
    text_eq_iff id j,
  )
