-- ===== src/ObjectAdapter.antt =====
-- The object adapter of the middleware: src/scopes/internal/zmq_middleware/ObjectAdapter.cpp. Here
-- are its state and its maps of servants; every operation on these holds both mutexes. The servants
-- are of a type that is a parameter, and a null pointer is `none`.
pub mod Servants
pub mod Lifecycle
pub mod Pump
mod Tests
use unity_scopes_api.Prelude.{
  Bool, true, false, ◌||◌, List, [], ◌∷◌, Option, none, some, Text, Result, ok, err,
  invalid_argument, middleware_error, ◌>>=◌, ◌>>◌, throw_if, is_empty, is_some, if◌then◌else◌,
}
use unity_scopes_api.Prelude.Dict.{find, insert_new, erase}

pub data AdapterState : Type 0 where
  inactive activating active deactivating destroyed failed : AdapterState

abbrev pub is_final : AdapterState → Bool
is_final destroyed = true
is_final failed = true
is_final _ = false

module _ {ℓ} (S : Type ℓ) where
  pub record Adapter : Type ℓ where
    state : AdapterState
    servants : List (Text × S)
    dflt_servants : List (Text × S)

module _ {ℓ} {S : Type ℓ} where
  abbrev throw_if_bad_state : Adapter S → Result (Unit {0})
  throw_if_bad_state a = throw_if (is_final a.state) middleware_error

  abbrev throw_if_null : Option S → Result S
  throw_if_null none = err invalid_argument
  throw_if_null (some obj) = ok obj

  unfoldable pub add : Text → Option S → Adapter S → Result (Adapter S)
  add id obj a = do
    throw_if (is_empty id) invalid_argument
    s ← throw_if_null obj
    throw_if_bad_state a
    throw_if (is_some (find id a.servants)) middleware_error
    ok (record a { servants = insert_new id s a.servants })

  unfoldable pub remove : Text → Adapter S → Result (Adapter S)
  remove id a = do
    throw_if_bad_state a
    throw_if (if is_some (find id a.servants) then false else true) middleware_error
    ok (record a { servants = erase id a.servants })

  unfoldable pub find_servant_of : Text → Adapter S → Result (Option S)
  find_servant_of id a = do throw_if_bad_state a; ok (find id a.servants)

  unfoldable pub add_dflt_servant : Text → Option S → Adapter S → Result (Adapter S)
  add_dflt_servant category obj a = do
    s ← throw_if_null obj
    throw_if_bad_state a
    throw_if (is_some (find category a.dflt_servants)) middleware_error
    ok (record a { dflt_servants = insert_new category s a.dflt_servants })

  unfoldable pub remove_dflt_servant : Text → Adapter S → Result (Adapter S)
  remove_dflt_servant category a = do
    throw_if_bad_state a
    throw_if (if is_some (find category a.dflt_servants) then false else true) middleware_error
    ok (record a { dflt_servants = erase category a.dflt_servants })

  unfoldable pub find_dflt_servant : Text → Adapter S → Result (Option S)
  find_dflt_servant category a = do throw_if_bad_state a; ok (find category a.dflt_servants)

  abbrev or_default : Option S → Result (Option S) → Result (Option S)
  or_default none r = r
  or_default (some s) r = ok (some s)

  -- The servant for an invocation: the one with the id, else the default one of the category.
  unfoldable pub find_servant : Text → Text → Adapter S → Result (Option S)
  unfolding find_servant_of find_dflt_servant
  find_servant id category a = do
    s ← find_servant_of id a
    or_default s (find_dflt_servant category a)
