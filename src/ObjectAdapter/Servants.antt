-- ===== src/ObjectAdapter/Servants.antt =====
-- The maps of servants as the users of an adapter see them: two partial functions, and whether the
-- adapter still takes calls.
use unity_scopes_api.Prelude.{
  ◌≡◌, refl, Bool, ◌||◌, List, [], ◌∷◌, Option, none, some, Text, text_eq, text_eq_iff, Result, ok,
  err, invalid_argument, middleware_error, arith, is_empty, is_some, if◌then◌else◌,
}
use unity_scopes_api.Prelude.Dict.{
  find, IsMap, find-insert_new, find-erase, insert_new-IsMap, erase-IsMap,
}
use unity_scopes_api.ObjectAdapter.{
  AdapterState, is_final, Adapter, add, remove, find_servant_of, add_dflt_servant,
  remove_dflt_servant, find_dflt_servant, find_servant,
}

module _ {ℓ} (S : Type ℓ) where
  -- The calls on an adapter, and the changes of its state by the other threads.
  pub data Call : Type ℓ where
    adds adds_dflt : Text → Option S → Call
    removes removes_dflt : Text → Call
    finds finds_dflt : Text → Call
    finds_for : Text → Text → Call
    enters : AdapterState → Call

  pub record Spec : Type ℓ where
    gone : Bool
    by_id : Text → Option S
    by_category : Text → Option S

module _ {ℓ} {S : Type ℓ} where
  abbrev changed : Adapter S → Result (Adapter S) → Adapter S × Result (Option S)
  changed a (ok b) = (b, ok none)
  changed a (err e) = (a, err e)

  unfoldable pub call : Call S → Adapter S → Adapter S × Result (Option S)
  unfolding add remove find_servant_of add_dflt_servant remove_dflt_servant find_dflt_servant
      find_servant
  call (adds id obj) a = changed a (add id obj a)
  call (adds_dflt c obj) a = changed a (add_dflt_servant c obj a)
  call (removes id) a = changed a (remove id a)
  call (removes_dflt c) a = changed a (remove_dflt_servant c a)
  call (finds id) a = (a, find_servant_of id a)
  call (finds_dflt c) a = (a, find_dflt_servant c a)
  call (finds_for id c) a = (a, find_servant id c a)
  call (enters state) a = (record a { state = state }, ok none)

  unfoldable pub calls : List (Call S) → Adapter S → Adapter S × List (Result (Option S))
  calls [] a = (a, [])
  calls (c ∷ cs) a = let (b, r) = call c a in let (d, rs) = calls cs b in (d, r ∷ rs)

  abbrev set_at : Text → Option S → (Text → Option S) → Text → Option S
  set_at k v f j = if text_eq k j then v else f j

  abbrev served : Bool → Spec S → Result (Option S) → Spec S × Result (Option S)
  served b m r = (m, if b then err middleware_error else r)

  abbrev put : Option S → Option S → Spec S → Spec S → Spec S × Result (Option S)
  put none known m n = (m, err invalid_argument)
  put (some s) known m n =
      if m.gone || is_some known then (m, err middleware_error) else (n, ok none)

  abbrev taken : Option S → Spec S → Spec S → Spec S × Result (Option S)
  taken none m n = (m, err middleware_error)
  taken (some s) m n = if m.gone then (m, err middleware_error) else (n, ok none)

  abbrev first_of : Option S → Option S → Option S
  first_of (some s) t = some s
  first_of none t = t

  -- What a call promises: an id or a category is given one servant at most, and only until it is
  -- removed; nothing is found or changed once the adapter is destroyed or failed.
  unfoldable pub promised : Call S → Spec S → Spec S × Result (Option S)
  promised (adds id obj) m =
      if is_empty id
      then (m, err invalid_argument)
      else put obj (m.by_id id) m (record m { by_id = set_at id obj m.by_id })
  promised (adds_dflt c obj) m =
      put obj (m.by_category c) m (record m { by_category = set_at c obj m.by_category })
  promised (removes id) m = taken (m.by_id id) m (record m { by_id = set_at id none m.by_id })
  promised (removes_dflt c) m =
      taken (m.by_category c) m (record m { by_category = set_at c none m.by_category })
  promised (finds id) m = served m.gone m (ok (m.by_id id))
  promised (finds_dflt c) m = served m.gone m (ok (m.by_category c))
  promised (finds_for id c) m = served m.gone m (ok (first_of (m.by_id id) (m.by_category c)))
  promised (enters state) m = (record m { gone = is_final state }, ok none)

  unfoldable pub promised_all : List (Call S) → Spec S → Spec S × List (Result (Option S))
  promised_all [] m = (m, [])
  promised_all (c ∷ cs) m =
      let (n, r) = promised c m in let (p, rs) = promised_all cs n in (p, r ∷ rs)

  abbrev pub AreMaps : Adapter S → Type 0
  AreMaps a = IsMap a.servants × IsMap a.dflt_servants

  abbrev pub no_servants : AdapterState → Adapter S
  no_servants state = record { state = state; servants = []; dflt_servants = [] }

  call-AreMaps : (c : Call S) (a : Adapter S) → AreMaps a → AreMaps (call c a).0
  unfolding call
  call-AreMaps (adds id none) a w = ground (arith, w)
  call-AreMaps (adds id (some s)) a w = ground (arith, w, insert_new-IsMap id s a.servants)
  call-AreMaps (adds_dflt c none) a w = ground (arith, w)
  call-AreMaps (adds_dflt c (some s)) a w = ground (arith, w, insert_new-IsMap c s a.dflt_servants)
  call-AreMaps (removes id) a w = ground (arith, w, erase-IsMap id a.servants)
  call-AreMaps (removes_dflt c) a w = ground (arith, w, erase-IsMap c a.dflt_servants)
  call-AreMaps (finds id) a w = w
  call-AreMaps (finds_dflt c) a w = w
  call-AreMaps (finds_for id c) a w = w
  call-AreMaps (enters state) a w = w

  -- The adapter has what the partial functions have.
  abbrev pub Agrees : Adapter S → Spec S → Type ℓ
  Agrees a m =
      (is_final a.state ≡ m.gone)
      × ((i : Text) → find i a.servants ≡ m.by_id i)
      × ((c : Text) → find c a.dflt_servants ≡ m.by_category c)

  answer_promised :
      (c : Call S) (a : Adapter S) (m : Spec S) → Agrees a m → (call c a).1 ≡ (promised c m).1
  unfolding call promised
  answer_promised (adds id none) a m h = ground arith
  answer_promised (adds id (some s)) a m h = ground (arith, h.0, h.1 id)
  answer_promised (adds_dflt c none) a m h = ground arith
  answer_promised (adds_dflt c (some s)) a m h = ground (arith, h.0, h.2 c)
  answer_promised (removes id) a m h = ground (arith, h.0, h.1 id)
  answer_promised (removes_dflt c) a m h = ground (arith, h.0, h.2 c)
  answer_promised (finds id) a m h = ground (arith, h.0, h.1 id)
  answer_promised (finds_dflt c) a m h = ground (arith, h.0, h.2 c)
  answer_promised (finds_for id c) a m h = ground (arith, h.0, h.1 id, h.2 c)
  answer_promised (enters state) a m h = refl

  gone_promised :
      (c : Call S) (a : Adapter S) (m : Spec S)
      → Agrees a m
      → is_final (call c a).0.state ≡ (promised c m).0.gone
  unfolding call promised
  gone_promised (adds id none) a m h = ground (arith, h.0)
  gone_promised (adds id (some s)) a m h = ground (arith, h.0)
  gone_promised (adds_dflt c none) a m h = ground (arith, h.0)
  gone_promised (adds_dflt c (some s)) a m h = ground (arith, h.0)
  gone_promised c a m h = ground (arith, h.0)

  by_id_promised :
      (c : Call S) (a : Adapter S) (m : Spec S) (j : Text)
      → AreMaps a
      → Agrees a m
      → find j (call c a).0.servants ≡ (promised c m).0.by_id j
  unfolding call promised
  by_id_promised (adds id (some s)) a m j w h =
      ground (arith, h.0, h.1 id, h.1 j, find-insert_new id j s a.servants, text_eq_iff id j)
  by_id_promised (removes id) a m j w h =
      ground (arith, h.0, h.1 id, h.1 j, find-erase id j a.servants w.0)
  by_id_promised (adds_dflt c (some s)) a m j w h = ground (arith, h.0, h.2 c, h.1 j)
  by_id_promised (removes_dflt c) a m j w h = ground (arith, h.0, h.2 c, h.1 j)
  by_id_promised c a m j w h = ground (arith, h.0, h.1 j)

  by_category_promised :
      (c : Call S) (a : Adapter S) (m : Spec S) (j : Text)
      → AreMaps a
      → Agrees a m
      → find j (call c a).0.dflt_servants ≡ (promised c m).0.by_category j
  unfolding call promised
  by_category_promised (adds_dflt c (some s)) a m j w h =
      ground (arith, h.0, h.2 c, h.2 j, find-insert_new c j s a.dflt_servants, text_eq_iff c j)
  by_category_promised (removes_dflt c) a m j w h =
      ground (arith, h.0, h.2 c, h.2 j, find-erase c j a.dflt_servants w.1)
  by_category_promised (adds id (some s)) a m j w h = ground (arith, h.0, h.1 id, h.2 j)
  by_category_promised (removes id) a m j w h = ground (arith, h.0, h.1 id, h.2 j)
  by_category_promised c a m j w h = ground (arith, h.0, h.2 j)

  -- One call after the other, the adapter stays in agreement and gives the answers promised.
  calls-promised :
      (cs : List (Call S)) (a : Adapter S) (m : Spec S)
      → AreMaps a
      → Agrees a m
      → ((calls cs a).1 ≡ (promised_all cs m).1) × Agrees (calls cs a).0 (promised_all cs m).0
  unfolding calls promised_all
  calls-promised [] a m w h = (refl, h)
  calls-promised (c ∷ cs) a m w h =
      let (answers, agrees) = calls-promised cs (call c a).0 (promised c m).0 (call-AreMaps c a w) (
        gone_promised c a m h,
        λ j. by_id_promised c a m j w h,
        λ j. by_category_promised c a m j w h,
      ) in
      (ground (arith, answers, answer_promised c a m h), agrees)

  abbrev pub no_promise : AdapterState → Spec S
  no_promise state = record { gone = is_final state; by_id = λ i. none; by_category = λ c. none }

  -- An adapter that starts without servants gives, to every sequence of calls, the answers of the two
  -- partial functions that start empty, whatever states the other threads put it in, and ends with
  -- the servants that these have.
  pub calls-refines :
      (cs : List (Call S)) (state : AdapterState)
      → ((calls cs (no_servants state)).1 ≡ (promised_all cs (no_promise state)).1)
        × Agrees (calls cs (no_servants state)).0 (promised_all cs (no_promise state)).0
  unfolding find
  calls-refines cs state =
      calls-promised cs (no_servants state) (no_promise state) (tt, tt) (refl, λ i. refl, λ c. refl)
