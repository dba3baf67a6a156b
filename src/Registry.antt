-- ===== src/Registry.antt =====
-- The registry of local scopes: RegistryObject in src/scopes/internal/RegistryObject.cpp. The
-- remote registry is a parameter: what it answers, or that it throws. Desktop files and log lines
-- are output and are left out. A scope's process is a ScopeProcess, shared with the callers of
-- locate(); the registry's mutex makes each section of a method atomic.
pub mod Paired
pub mod Laws
pub mod Lookup
mod Tests
use unity_scopes_api.Prelude.{
  ℕ, suc, Bool, true, false, ◌||◌, List, [], ◌∷◌, Option, none, some, Text, text_eq, Result, ok,
  err, Error, invalid_argument, not_found, resource_error, ◌>>=◌, ◌>>◌, throw_if, is_empty, is_some,
  ◌==◌, if◌then◌else◌,
}
use unity_scopes_api.Prelude.Dict.{find, insert_new, insert_all, erase}
use unity_scopes_api.Prelude.Int.{ℤ}
use unity_scopes_api.ScopeProcess.{
  running, stopping, same_state, ScopeProcess, ScopeExecData, new_process, update_state,
  on_process_death, Outcome, done, threw, waits_forever, KillEnv, kill, ExecEnv, exec,
}

-- `none` is an exception of the remote call.
pub record Remote {ℓ} (M : Type ℓ) : Type ℓ where
  pub get_metadata : Text → Option M
  pub list : Option (List (Text × M))

-- `notices` counts the blank messages to the subscribers of the registry.
pub record Registry {ℓ} (M : Type ℓ) : Type ℓ where
  pub scopes : List (Text × M)
  pub processes : List (Text × ScopeProcess)
  pub remote : Option (Remote M)
  pub publisher : Bool
  pub no_process : ℤ
  pub notices : ℕ

-- A call that may not return.
pub data Returned {ℓ} (A : Type ℓ) : Type ℓ where
  returned : Result A → Returned A
  never : Returned A

-- std::string::find('/') != npos.
unfoldable pub has_slash : Text → Bool
has_slash [] = false
has_slash (c ∷ s) = c == b'/' || has_slash s

-- A process that is shared with others changes in place.
unfoldable pub replace :
    Text → ScopeProcess → List (Text × ScopeProcess) → List (Text × ScopeProcess)
replace k p [] = []
replace k p ((j, q) ∷ m) = if text_eq j k then (j, p) ∷ m else (j, q) ∷ replace k p m

unfoldable pub death_in : ℤ → List (Text × ScopeProcess) → List (Text × ScopeProcess)
death_in pid [] = []
death_in pid ((k, p) ∷ m) =
    let told = on_process_death pid p in
    if told.1 then (k, told.0) ∷ m else (k, told.0) ∷ death_in pid m

-- StateReceiverObject::State, with any other value.
pub data ReceivedState : Type 0 where
  scope_ready scope_stopping unknown_state : ReceivedState

abbrev state_in : ReceivedState → ScopeProcess → ScopeProcess
state_in scope_ready p = update_state running p
state_in scope_stopping p = update_state stopping p
state_in unknown_state p = p

-- `resource_error` stands for any exception of exec or kill.
module _ {ℓ} {M : Type ℓ} where
  or_remote : Text → Option (Remote M) → Result M
  or_remote id none = err not_found
  or_remote id (some remote) = elim (remote.get_metadata id) [
    | none ↦ err not_found
    | some metadata ↦ ok metadata
  ]

  unfoldable pub get_metadata : Text → Registry M → Result M
  unfolding or_remote
  get_metadata id r = do
    throw_if (is_empty id) invalid_argument
    elim (find id r.scopes) [ some metadata ↦ ok metadata | none ↦ or_remote id r.remote ]

  with_remote : List (Text × M) → Option (Remote M) → List (Text × M)
  with_remote scopes none = scopes
  with_remote scopes (some remote) = elim remote.list [
    | none ↦ scopes
    | some others ↦ insert_all others scopes
  ]

  unfoldable pub list : Registry M → List (Text × M)
  unfolding with_remote
  list r = with_remote r.scopes r.remote

  -- locate() after its process has run exec; `metadata` holds the proxy that is returned.
  located : Text → M → Registry M → ScopeProcess × Outcome → Registry M × Returned M
  located id metadata r (p, done) =
      (record r { processes = replace id p r.processes }, returned (ok metadata))
  located id metadata r (p, threw) =
      (record r { processes = replace id p r.processes }, returned (err resource_error))
  located id metadata r (p, waits_forever) =
      (record r { processes = replace id p r.processes }, never)

  locate_known :
      ExecEnv → Text → Option M → Option ScopeProcess → Registry M → Registry M × Returned M
  unfolding located
  locate_known env id none process r = (r, returned (err not_found))
  locate_known env id (some metadata) none r = (r, returned (err not_found))
  locate_known env id (some metadata) (some p) r = located id metadata r (exec env p)

  unfoldable pub locate : ExecEnv → Text → Registry M → Registry M × Returned M
  unfolding locate_known
  locate env id r =
      if is_empty id
      then (r, returned (err invalid_argument))
      else locate_known env id (find id r.scopes) (find id r.processes) r

  unfoldable pub is_scope_running : Text → Registry M → Result Bool
  is_scope_running id r = elim (find id r.processes) [
    | none ↦ err not_found
    | some p ↦ ok (same_state p.state running)
  ]

  abbrev publish : Registry M → Registry M
  publish r = if r.publisher then record r { notices = suc r.notices } else r

  -- Whether the scope was new, too.
  unfoldable pub add_local_scope :
      Text → M → ScopeExecData → Registry M → Result (Registry M × Bool)
  add_local_scope id metadata exec_data r = do
    throw_if (is_empty id) invalid_argument
    throw_if (has_slash id) invalid_argument
    let known = is_some (find id r.scopes)
    let scopes = if known then erase id r.scopes else r.scopes
    let processes = if known then erase id r.processes else r.processes
    ok (
      publish (record r {
        scopes = insert_new id metadata scopes;
        processes = insert_new id (new_process exec_data r.no_process r.publisher) processes;
      }),
      if known then false else true,
    )

  -- The second section of remove_local_scope; `thrown` says that kill threw.
  forget : Text → Bool → Registry M → Registry M × Returned Bool
  forget id thrown r =
      let erased = is_some (find id r.scopes) in
      let rest : Registry M = record r {
        scopes = erase id r.scopes;
        processes = erase id r.processes;
      } in
      (
        if erased then publish rest else rest,
        if thrown then returned (err resource_error) else returned (ok erased),
      )

  forget_after_kill : Text → Registry M → ScopeProcess × Outcome → Registry M × Returned Bool
  unfolding forget
  forget_after_kill id r (p, done) = forget id false r
  forget_after_kill id r (p, threw) = forget id true r
  forget_after_kill id r (p, waits_forever) =
      (record r { processes = replace id p r.processes }, never)

  unfoldable pub remove_local_scope : KillEnv → Text → Registry M → Registry M × Returned Bool
  unfolding forget_after_kill
  remove_local_scope env id r =
      if is_empty id then (r, returned (err invalid_argument)) else elim (find id r.processes) [
        | none ↦ forget id false r
        | some p ↦ forget_after_kill id r (kill env p)
      ]

  unfoldable pub set_remote_registry : Remote M → Registry M → Registry M
  set_remote_registry remote r = record r { remote = some remote }

  unfoldable pub process_died : ℤ → Registry M → Registry M
  process_died pid r = record r { processes = death_in pid r.processes }

  unfoldable pub on_state_received : Text → ReceivedState → Registry M → Registry M
  on_state_received id s r = elim (find id r.processes) [
    | none ↦ r
    | some p ↦ record r { processes = replace id (state_in s p) r.processes }
  ]

  unfoldable pub ss_list_update : Registry M → Registry M
  ss_list_update r = publish r
