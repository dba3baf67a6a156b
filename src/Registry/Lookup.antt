-- ===== src/Registry/Lookup.antt =====
-- What the registry answers, and its histories.
use unity_scopes_api.Prelude.{
  ◌≡◌, inl, inr, refl, ap, Bool, true, List, [], ◌∷◌, Option, none, some, Text, Result, ok, err,
  invalid_argument, not_found, arith, is_empty, if◌then◌else◌, Option-cases,
}
use unity_scopes_api.Prelude.Dict.{find, find-insert_all}
use unity_scopes_api.Prelude.Int.{ℤ}
use unity_scopes_api.ScopeProcess.{
  running, ScopeProcess, ScopeExecData, Outcome, done, threw, waits_forever, KillEnv, ExecEnv, exec,
}
use unity_scopes_api.ScopeProcess.Exec.{Ends, exec-Ends}
use unity_scopes_api.Registry.{
  Registry, Remote, returned, replace, ReceivedState, or_remote, get_metadata, with_remote, list,
  located, locate_known, locate, is_scope_running, add_local_scope, remove_local_scope,
  process_died, on_state_received,
}
use unity_scopes_api.Registry.Paired.{IsPaired}
use unity_scopes_api.Registry.Laws.{
  add_local_scope-IsPaired, remove_local_scope-IsPaired, locate-IsPaired, process_died-IsPaired,
  on_state_received-IsPaired,
}

find-replace :
    (k : Text) (p q : ScopeProcess) (m : List (Text × ScopeProcess))
    → find k m ≡ some q
    → find k (replace k p m) ≡ some p
unfolding find replace
find-replace k p q [] e = cc
find-replace k p q ((i, x) ∷ m) e = ground (arith, find-replace k p q m)

exec-running :
    (env : ExecEnv) (p : ScopeProcess) → (exec env p).1 ≡ done → (exec env p).0.state ≡ running
exec-running env p h = ends (exec env p) (exec-Ends env p) h
  where
    ends : (x : ScopeProcess × Outcome) → Ends env p.exec_data x → x.1 ≡ done → x.0.state ≡ running
    ends (q, done) k e = k
    ends (q, threw) k e = cc
    ends (q, waits_forever) k e = cc

module _ {ℓ} {M : Type ℓ} where
  -- What a remote registry knows of an id; an exception is as if it knew nothing.
  abbrev pub asked : Option (Remote M) → Text → Option M
  asked none id = none
  asked (some remote) id = remote.get_metadata id

  -- Metadata come from the local scopes first and else from the remote registry, and in no other
  -- way; an empty id is an invalid argument, and an id that neither knows is not found.
  pub get_metadata-exact :
      (id : Text) (r : Registry M)
      → get_metadata id r ≡ (
          if is_empty id then err invalid_argument else (elim (find id r.scopes) [
            | some m ↦ ok m
            | none ↦ elim (asked r.remote id) [ some m ↦ ok m | none ↦ err not_found ]
          ]))
  unfolding get_metadata or_remote
  get_metadata-exact id r = ground arith

  -- The remote scopes, none if there is no remote registry or it throws.
  abbrev pub offered : Option (Remote M) → List (Text × M)
  offered none = []
  offered (some remote) = elim remote.list [ none ↦ [] | some scopes ↦ scopes ]

  find-with_remote :
      (id : Text) (scopes : List (Text × M)) (o : Option (Remote M))
      → find id (with_remote scopes o)
        ≡ (elim (find id scopes) [ some m ↦ some m | none ↦ find id (offered o) ])
  unfolding with_remote find
  find-with_remote id scopes none = ground arith
  find-with_remote id scopes (some remote) = elim (Option-cases remote.list) [
    | inl failed ↦ ground arith
    | inr (others, given) ↦ ground (arith, find-insert_all others scopes id)
  ]

  -- The list has every local scope with its own metadata, and a remote one only under an id that
  -- is not local.
  pub find-list :
      (id : Text) (r : Registry M)
      → find id (list r)
        ≡ (elim (find id r.scopes) [ some m ↦ some m | none ↦ find id (offered r.remote) ])
  unfolding list
  find-list id r = find-with_remote id r.scopes r.remote

  located-running :
      (id : Text) (m n : M) (r : Registry M) (q : ScopeProcess) (e : ScopeProcess × Outcome)
      → find id r.processes ≡ some q
      → (e.1 ≡ done → e.0.state ≡ running)
      → (located id n r e).1 ≡ returned (ok m)
      → (n ≡ m) × (is_scope_running id (located id n r e).0 ≡ ok true)
  unfolding located is_scope_running
  located-running id m n r q (p, done) f h k =
      (ground arith, ground (arith, find-replace id p q r.processes f, h refl))
  located-running id m n r q (p, threw) f h k = cc
  located-running id m n r q (p, waits_forever) f h k = cc

  locate_known-running :
      (env : ExecEnv) (id : Text) (m : M) (o : Option M) (p : Option ScopeProcess) (r : Registry M)
      → find id r.processes ≡ p
      → (locate_known env id o p r).1 ≡ returned (ok m)
      → (o ≡ some m) × (is_scope_running id (locate_known env id o p r).0 ≡ ok true)
  unfolding locate_known
  locate_known-running env id m none p r e h = cc
  locate_known-running env id m (some n) none r e h = cc
  locate_known-running env id m (some n) (some p) r e h =
      let (same, run) = located-running id m n r p (exec env p) e (exec-running env p) h in
      (ap some same, run)

  -- When locate() returns a scope, that scope is the one that is registered under the id, and its
  -- process is running.
  pub locate-running :
      (env : ExecEnv) (id : Text) (m : M) (r : Registry M)
      → (locate env id r).1 ≡ returned (ok m)
      → (find id r.scopes ≡ some m) × (is_scope_running id (locate env id r).0 ≡ ok true)
  unfolding locate
  locate-running env [] m r h = cc
  locate-running env (c ∷ id) m r h = locate_known-running env (c ∷ id) m _ _ r refl h

-- The calls that change a registry; one that throws leaves it as it was.
pub data Call {ℓ} (M : Type ℓ) : Type ℓ where
  adds : Text → M → ScopeExecData → Call M
  removes : KillEnv → Text → Call M
  locates : ExecEnv → Text → Call M
  deaths : ℤ → Call M
  states : Text → ReceivedState → Call M

module _ {ℓ} {M : Type ℓ} where
  abbrev after_add : Registry M → Result (Registry M × Bool) → Registry M
  after_add r (ok (s, new)) = s
  after_add r (err e) = r

  abbrev pub call : Call M → Registry M → Registry M
  call (adds id m d) r = after_add r (add_local_scope id m d r)
  call (removes env id) r = (remove_local_scope env id r).0
  call (locates env id) r = (locate env id r).0
  call (deaths pid) r = process_died pid r
  call (states id s) r = on_state_received id s r

  unfoldable pub calls : List (Call M) → Registry M → Registry M
  calls [] r = r
  calls (c ∷ cs) r = calls cs (call c r)

  call-IsPaired :
      (c : Call M) (r : Registry M)
      → ((j : Text) → IsPaired j r)
      → (j : Text) → IsPaired j (call c r)
  call-IsPaired (adds id m d) r v j = added (add_local_scope id m d r) refl
    where
      added :
          (x : Result (Registry M × Bool))
          → add_local_scope id m d r ≡ x
          → IsPaired j (after_add r x)
      added (ok (s, new)) e = (add_local_scope-IsPaired id j m d r s new e (v id) (v j)).0
      added (err e) _ = v j
  call-IsPaired (removes env id) r v j = remove_local_scope-IsPaired env id j r (v id) (v j)
  call-IsPaired (locates env id) r v j = locate-IsPaired env id j r (v j)
  call-IsPaired (deaths pid) r v j = process_died-IsPaired pid j r (v j)
  call-IsPaired (states id s) r v j = on_state_received-IsPaired id j s r (v j)

  calls-IsPaired_from :
      (cs : List (Call M)) (r : Registry M)
      → ((j : Text) → IsPaired j r)
      → (j : Text) → IsPaired j (calls cs r)
  unfolding calls
  calls-IsPaired_from [] r v = v
  calls-IsPaired_from (c ∷ cs) r v = calls-IsPaired_from cs (call c r) (call-IsPaired c r v)

  abbrev pub empty_registry : Option (Remote M) → Bool → ℤ → Registry M
  empty_registry remote publisher no_process = record {
    scopes = [];
    processes = [];
    remote = remote;
    publisher = publisher;
    no_process = no_process;
    notices = 0;
  }

  -- After any sequence of calls on a new registry, with whatever outcome, every scope with metadata
  -- has a process and the other way round, and each id stands once in either map.
  pub calls-IsPaired :
      (remote : Option (Remote M)) (publisher : Bool) (no_process : ℤ) (cs : List (Call M))
      (j : Text)
      → IsPaired j (calls cs (empty_registry remote publisher no_process))
  unfolding find
  calls-IsPaired remote publisher no_process cs =
      calls-IsPaired_from cs (empty_registry remote publisher no_process)
        λ j. record { scopes_map = tt; processes_map = tt; paired = refl }
