-- ===== src/Results/Chains.antt =====
-- Activation of a result that stores another one, which may store a further one, and so on.
use unity_scopes_api.Prelude.{
  ◌≡◌, ◌≢◌, refl, sym, ap, ◌∙◌, subst, ℕ, zero, suc, ◌<◌, Bool, true, false, not, List, [], ◌∷◌,
  none, some, Text, text_eq, codes, Result, ok, logic_error, arith, if◌then◌else◌, All, All-of,
  if_cases,
}
use unity_scopes_api.Variant.{Fields, str, dict, find, text_entry, get_string, get_dict}
use unity_scopes_api.Variant.Laws.{entry_laws, find_or-found}
use unity_scopes_api.Results.Search.{size-find}
use unity_scopes_api.Results.Serial.{serialized, internal-entries, flags_again, internal_found}
use unity_scopes_api.Results.{
  ResultImpl, intercepts, serialize, serialize_internal, outer, stored_entry, level, search, size,
  find_stored_result, direct_activation, get_origin, target_origin, activation_target,
}

-- A result with those that it stores, the next one first.
pub data IsChain : ResultImpl → List ResultImpl → Type 0 where
  alone : {r : ResultImpl} → r.stored ≡ none → IsChain r []
  storing :
      {r s : ResultImpl} {rs : List ResultImpl} {m : Fields}
      → r.stored ≡ some m
      → serialize s ≡ ok m
      → IsChain s rs
      → IsChain r (s ∷ rs)

-- The result that handles the activation: the first that intercepts it, or the last.
abbrev pub handler : ResultImpl → List ResultImpl → ResultImpl
handler r [] = r
handler r (s ∷ rs) = if intercepts r.flags then r else handler s rs

abbrev pub any_intercepts : ResultImpl → List ResultImpl → Bool
any_intercepts r [] = intercepts r.flags
any_intercepts r (s ∷ rs) = if intercepts r.flags then true else any_intercepts s rs

level-outer : (r : ResultImpl) → level (outer r) ≡ ok (r.flags, serialize_internal r)
unfolding level text_eq get_dict
level-outer r = simp (entry_laws, (internal-entries r).0, flags_again)

size-outer : (r : ResultImpl) (m : Fields) → r.stored ≡ some m → size m < size (outer r)
size-outer r m e =
    let whole : find (codes "internal") (outer r) ≡ some (dict (serialize_internal r)) =
      internal_found r in
    omega (
      arith,
      size-find (codes "internal") (outer r) (serialize_internal r) whole,
      size-find (codes "result") (serialize_internal r) m
          ((internal-entries r).2 ∙ ap stored_entry e),
    )

module _ {T : Type 0} (visit : Fields → Result T) (t : ResultImpl → T) where
  -- One round at a result.
  search-outer :
      (fuel : ℕ) (r : ResultImpl)
      → visit (outer r) ≡ ok (t r)
      → search visit (suc fuel) (outer r) ≡ (
          if intercepts r.flags
          then some (ok (true, t r))
          else elim r.stored [ none ↦ some (ok (false, t r)) | some m ↦ search visit fuel m ])
  unfolding search get_dict
  search-outer fuel r v = ground (arith, level-outer r, v, (internal-entries r).2)

  search-chain :
      (fuel : ℕ) (r : ResultImpl) (rs : List ResultImpl)
      → IsChain r rs
      → All (λ s. visit (outer s) ≡ ok (t s)) (r ∷ rs)
      → size (outer r) < fuel
      → search visit fuel (outer r) ≡ some (ok (any_intercepts r rs, t (handler r rs)))
  search-chain zero r rs c v h = absurd (omega arith)
  search-chain (suc fuel) r rs (alone n) v h = ground (arith, search-outer fuel r v.0, n)
  search-chain (suc fuel) r (s ∷ rs) (storing {m = m} st ser c) v h =
      let is_outer = serialized s m ser in
      let smaller : size (outer s) < fuel =
        subst (λ n. size n < fuel) is_outer (omega (arith, size-outer r m st)) in
      let found = ap (search visit fuel) is_outer ∙ search-chain fuel s rs c v.1 smaller in
      ground (arith, search-outer fuel r v.0, st, found)

  find-chain :
      (s : ResultImpl) (rs : List ResultImpl) (m : Fields)
      → serialize s ≡ ok m
      → IsChain s rs
      → All (λ q. visit (outer q) ≡ ok (t q)) (s ∷ rs)
      → find_stored_result visit m ≡ ok (any_intercepts s rs, t (handler s rs))
  unfolding find_stored_result
  find-chain s rs m ser c v =
      let is_outer = serialized s m ser in
      ground (
        arith,
        subst
            (λ n. search visit (suc (size n)) n ≡ some (ok (any_intercepts s rs, t (handler s rs))))
            (sym is_outer) (search-chain (suc (size (outer s))) s rs c v (omega arith)),
      )

handler-serializes :
    (s : ResultImpl) (rs : List ResultImpl) (m : Fields)
    → serialize s ≡ ok m
    → IsChain s rs
    → serialize (handler s rs) ≡ ok (outer (handler s rs))
handler-serializes s [] m e c = e ∙ ap ok (serialized s m e)
handler-serializes s (q ∷ rs) m e (storing {m = n} st ser c) =
    if_cases (λ x. serialize x ≡ ok (outer x)) (intercepts s.flags) s (handler q rs)
      (λ h. e ∙ ap ok (serialized s m e)) (λ h. handler-serializes q rs n ser c)

abbrev visited : ResultImpl → Result (Unit {0})
visited r = ok tt

-- The activation of a result that stores other ones, each in the one before it, is direct exactly if
-- none of them intercepts it; its target is the first that intercepts it, or the last.
pub activation_target-handler :
    (r : ResultImpl) (rs : List ResultImpl)
    → IsChain r rs
    → (direct_activation r ≡ ok (not (any_intercepts r rs)))
      × (activation_target r ≡ serialize (handler r rs))
unfolding direct_activation activation_target
activation_target-handler r [] (alone n) = (ground (arith, n), ground (arith, n))
activation_target-handler r (s ∷ rs) (storing {m = m} st ser c) =
    let all_done = All-of (λ (q : ResultImpl). visited q ≡ visited q) (λ q. refl) (s ∷ rs) in
    let all_same = All-of (λ q. ok (outer q) ≡ ok (outer q)) (λ q. refl) (s ∷ rs) in
    (
      ground (arith, st, find-chain (λ x. visited r) (λ q. tt) s rs m ser c all_done),
      ground (
        arith,
        st,
        find-chain (λ x. ok x) (λ q. outer q) s rs m ser c all_same,
        handler-serializes s rs m ser c,
      ),
    )

origin_at : (r : ResultImpl) → r.origin ≢ [] → get_origin (outer r) ≡ ok r.origin
unfolding get_origin get_dict get_string
origin_at r h = ground (
  arith,
  h,
  find_or-found logic_error (codes "internal") (dict (serialize_internal r)) (outer r)
      (internal_found r),
  find_or-found logic_error (codes "origin") (str r.origin) (serialize_internal r)
      ((internal-entries r).1 ∙ text_there r.origin h),
)
  where
    text_there : (s : Text) → s ≢ [] → text_entry s ≡ some (str s)
    text_there [] k = absurd (k refl)
    text_there (x ∷ s) k = refl

All-origins :
    (rs : List ResultImpl)
    → All (λ q. q.origin ≢ []) rs
    → All (λ q. get_origin (outer q) ≡ ok q.origin) rs
All-origins [] o = tt
All-origins (r ∷ rs) o = (origin_at r o.0, All-origins rs o.1)

handler-origin :
    (r : ResultImpl) (rs : List ResultImpl)
    → All (λ q. q.origin ≢ []) (r ∷ rs)
    → (handler r rs).origin ≢ []
handler-origin r [] o = o.0
handler-origin r (s ∷ rs) o =
    if_cases (λ x. x.origin ≢ []) (intercepts r.flags) r (handler s rs) (λ h. o.0)
      (λ h. handler-origin s rs o.1)

-- Where a result and those that it stores, each in the one before it, all have an origin, and the
-- result has passed the middleware, the target scope is the origin of the first of them that
-- intercepts the activation, or of the last.
pub target_origin-handler :
    (r : ResultImpl) (rs : List ResultImpl)
    → IsChain r rs
    → All (λ q. q.origin ≢ []) (r ∷ rs)
    → r.has_runtime ≡ true
    → target_origin r ≡ ok (handler r rs).origin
unfolding target_origin
target_origin-handler r [] (alone n) o h = ground (arith, n, o, h)
target_origin-handler r (s ∷ rs) (storing {m = m} st ser c) o h = ground (
  arith,
  st,
  h,
  o.0,
  find-chain get_origin (λ q. q.origin) s rs m ser c (All-origins (s ∷ rs) o.1),
  handler-origin s rs o.1,
)
