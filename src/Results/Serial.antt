-- ===== src/Results/Serial.antt =====
-- A result survives the trip through its VariantMap, and its storing in another one.
use unity_scopes_api.Prelude.{
  ◌≡◌, ◌≢◌, refl, sym, ap, ◌∙◌, zero, suc, Bool, true, false, [], ◌∷◌, Option, none, some, Text,
  text_eq, text_eq_iff, codes, ok, invalid_argument, ok_of_bind, arith, if◌then◌else◌,
}
use unity_scopes_api.Variant.{
  Value, Fields, end, field, dict, find, find_or, insert, text_entry, get_int, get_dict,
}
use unity_scopes_api.Variant.Laws.{Lacks, IsMap, find_or-found, entry_laws, text_again}
use unity_scopes_api.Results.{
  ResultImpl, serialize, serialize_internal, outer, add_each, set_value, deserialize, flags_or_zero,
  flags_entry, stored_entry, stored_of, store, set_intercept_activation, retrieve,
}
use unity_scopes_api.Prelude.Int.{ℤ, pos, negsuc}

pub serialized : (r : ResultImpl) (m : Fields) → serialize r ≡ ok m → m ≡ outer r
unfolding serialize
serialized r m e = ground (arith, e)

pub internal-entries :
    (r : ResultImpl)
    → (find (codes "flags") (serialize_internal r) ≡ flags_entry r.flags)
      × (find (codes "origin") (serialize_internal r) ≡ text_entry r.origin)
      × (find (codes "result") (serialize_internal r) ≡ stored_entry r.stored)
unfolding serialize_internal text_eq find
internal-entries r = simp (entry_laws) (refl, refl, refl)

pub flags_again : (f : ℤ) → flags_or_zero (flags_entry f) ≡ ok f
unfolding get_int
flags_again (pos zero) = refl
flags_again (pos (suc n)) = ground arith
flags_again (negsuc n) = ground arith

pub internal_found :
    (r : ResultImpl) → find (codes "internal") (outer r) ≡ some (dict (serialize_internal r))
unfolding text_eq
internal_found r = simp (entry_laws)

abbrev pub HasKeys : Fields → Type 0
HasKeys end = Unit {0}
HasKeys (field k v m) = (k ≢ []) × HasKeys m

abbrev join : Fields → Fields → Fields
join end n = n
join (field k v m) n = field k v (join m n)

abbrev AreNew : Fields → Fields → Type 0
AreNew done end = Unit {0}
AreNew done (field k v m) = Lacks k done × AreNew done m

insert-new :
    (k : Text) (v : Value) (done : Fields)
    → Lacks k done
    → insert k v done ≡ join done (field k v end)
unfolding insert
insert-new k v end l = refl
insert-new k v (field j w m) l = ground (arith, l, insert-new k v m l.1, text_eq_iff j k)

join_assoc : (m n o : Fields) → join (join m n) o ≡ join m (join n o)
join_assoc end n o = refl
join_assoc (field k v m) n o = ap (field k v) (join_assoc m n o)

Lacks-join :
    (j k : Text) (v : Value) (done : Fields)
    → Lacks j done
    → k ≢ j
    → Lacks j (join done (field k v end))
Lacks-join j k v end l h = (h, tt)
Lacks-join j k v (field i w m) l h = (l.0, Lacks-join j k v m l.1 h)

AreNew-join :
    (k : Text) (v : Value) (done m : Fields)
    → AreNew done m
    → Lacks k m
    → AreNew (join done (field k v end)) m
AreNew-join k v done end a l = tt
AreNew-join k v done (field j w m) a l =
    (Lacks-join j k v done a.0 (λ e. l.0 (sym e)), AreNew-join k v done m a.1 l.1)

with_attrs : Fields → ResultImpl → ResultImpl
with_attrs m r = record r { attrs = m }

join-end : (m : Fields) → join m end ≡ m
join-end end = refl
join-end (field k v m) = ap (field k v) (join-end m)

add_each-join :
    (m done : Fields) (r : ResultImpl)
    → HasKeys m
    → IsMap m
    → AreNew done m
    → add_each m (with_attrs done r) ≡ ok (with_attrs (join done m) r)
unfolding add_each with_attrs set_value
add_each-join end done r h k a = ap (λ n. ok (with_attrs n r)) (sym (join-end done))
add_each-join (field [] v m) done r h w a = absurd (h.0 refl)
add_each-join (field (c ∷ k) v m) done r h w a =
    ap (λ n. add_each m (with_attrs n r)) (insert-new (c ∷ k) v done a.0)
    ∙ add_each-join m (join done (field (c ∷ k) v end)) r h.1 w.1
        (AreNew-join (c ∷ k) v done m a.1 w.0)
    ∙ ap (λ n. ok (with_attrs n r)) (join_assoc done (field (c ∷ k) v end) m)

AreNew-end : (m : Fields) → AreNew end m
AreNew-end end = tt
AreNew-end (field k v m) = (tt, AreNew-end m)

stored_again : (o : Option Fields) → stored_of (stored_entry o) ≡ ok o
unfolding get_dict
stored_again none = refl
stored_again (some m) = refl

attrs_found : (r : ResultImpl) → find (codes "attrs") (outer r) ≡ some (dict r.attrs)
unfolding text_eq
attrs_found r = simp (entry_laws)

uri_there :
    (r : ResultImpl) (m : Fields)
    → serialize r ≡ ok m
    → (v : Value) × (find_or invalid_argument (codes "uri") r.attrs ≡ ok v)
unfolding serialize
uri_there r m e =
    let (v, there, rest) = ok_of_bind (find_or invalid_argument (codes "uri") r.attrs) _ e in
    (v, there)

read_outer :
    (r : ResultImpl) (v : Value)
    → find_or invalid_argument (codes "uri") r.attrs ≡ ok v
    → deserialize (outer r) ≡ add_each r.attrs (with_attrs end (record r { has_runtime = false }))
unfolding deserialize get_dict with_attrs
read_outer r v there = simp (
  find_or-found invalid_argument (codes "internal") (dict (serialize_internal r)) (outer r)
      (internal_found r),
  find_or-found invalid_argument (codes "attrs") (dict r.attrs) (outer r) (attrs_found r),
  (internal-entries r).0,
  (internal-entries r).1,
  (internal-entries r).2,
  flags_again,
  text_again,
  stored_again,
  there,
)

-- A result that can be serialised is read back the same, but for its runtime, if its attributes have
-- keys that are not empty, each once.
pub deserialize-serialize_result :
    (r : ResultImpl) (m : Fields)
    → HasKeys r.attrs
    → IsMap r.attrs
    → serialize r ≡ ok m
    → deserialize m ≡ ok (record r { has_runtime = false })
unfolding with_attrs
deserialize-serialize_result r m h k e =
    let (v, there) = uri_there r m e in
    ap deserialize (serialized r m e)
    ∙ read_outer r v there
    ∙ add_each-join r.attrs end (record r { has_runtime = false }) h k (AreNew-end r.attrs)

-- Storing a result that can be serialised succeeds, and retrieving it gives the same result, but for
-- its runtime; an activation that is intercepted clears the origin of the result that stores.
pub retrieve-store :
    (other r : ResultImpl) (intercept : Bool) (m : Fields)
    → HasKeys other.attrs
    → IsMap other.attrs
    → serialize other ≡ ok m
    → ((store false other intercept r).1 ≡ ok tt)
      × (retrieve (store false other intercept r).0 ≡ ok (record other { has_runtime = false }))
      × ((store false other intercept r).0.attrs ≡ r.attrs)
      × ((store false other intercept r).0.origin ≡ (if intercept then [] else r.origin))
unfolding store set_intercept_activation retrieve
retrieve-store other r true m h k e = ground (arith, e, deserialize-serialize_result other m h k e)
retrieve-store other r false m h k e = ground (arith, e, deserialize-serialize_result other m h k e)
