-- ===== src/Registry/Laws.antt =====
-- The two maps of the registry name the same scopes, whatever is called.
use unity_scopes_api.Prelude.{
  ◌≡◌, ◌≢◌, ◌⊎◌, refl, ◌∙◌, sym, Bool, true, false, [], ◌∷◌, Option, none, some, Text, text_eq, ok,
  err, resource_error, arith, is_some, if◌then◌else◌, Option-cases, inl, inr,
}
use unity_scopes_api.Prelude.Dict.{find, insert_new, erase, find-erase, erase-IsMap}
use unity_scopes_api.Prelude.Int.{ℤ}
use unity_scopes_api.ScopeProcess.{
  ScopeProcess, ScopeExecData, new_process, Outcome, done, threw, waits_forever, KillEnv, kill,
  ExecEnv, exec,
}
use unity_scopes_api.Registry.{
  Registry, Returned, returned, never, replace, ReceivedState, state_in, located, locate_known,
  locate, add_local_scope, forget, forget_after_kill, remove_local_scope, process_died,
  on_state_received,
}
use unity_scopes_api.Registry.Paired.{
  IsPaired, is_some-replace, replace-IsMap, is_some-death_in, death_in-IsMap, renewed-IsMap,
  find-renewed,
}

module _ {ℓ} {M : Type ℓ} where
  replaced-IsPaired :
      (id k : Text) (p : ScopeProcess) (r : Registry M)
      → IsPaired id r
      → IsPaired id (record r { processes = replace k p r.processes })
  replaced-IsPaired id k p r v = record {
    scopes_map = v.scopes_map;
    processes_map = replace-IsMap k p r.processes v.processes_map;
    paired = v.paired ∙ sym (is_some-replace k id p r.processes);
  }

  add_local_scope-shape :
      (id : Text) (metadata : M) (d : ScopeExecData) (r s : Registry M) (new : Bool)
      → add_local_scope id metadata d r ≡ ok (s, new)
      → let known = is_some (find id r.scopes) in
        (s.scopes ≡ insert_new id metadata (if known then erase id r.scopes else r.scopes))
        × (s.processes
            ≡ insert_new id
                (new_process d r.no_process r.publisher)
                (if known then erase id r.processes else r.processes))
        × (new ≡ (if known then false else true))
  unfolding add_local_scope
  add_local_scope-shape id metadata d r s new e = ground arith

  is_some-if :
      (b : Bool) (m : M) (o : Option M) (p : ScopeProcess) (q : Option ScopeProcess)
      → is_some o ≡ is_some q
      → is_some (if b then some m else o) ≡ is_some (if b then some p else q)
  is_some-if true m o p q h = refl
  is_some-if false m o p q h = h

  -- Registering a scope replaces a known one of the same id and leaves the others: the id has the
  -- new metadata, every other id what it had, the answer says whether the scope was new, and the
  -- maps still name the same scopes.
  pub add_local_scope-IsPaired :
      (id j : Text) (metadata : M) (d : ScopeExecData) (r s : Registry M) (new : Bool)
      → add_local_scope id metadata d r ≡ ok (s, new)
      → IsPaired id r
      → IsPaired j r
      → IsPaired j s
        × (find j s.scopes ≡ (if text_eq id j then some metadata else find j r.scopes))
        × (new ≡ (if is_some (find id r.scopes) then false else true))
  add_local_scope-IsPaired id j metadata d r s new e v w =
      let p = new_process d r.no_process r.publisher in
      let known = is_some (find id r.scopes) in
      let (scopes, processes, answer) = add_local_scope-shape id metadata d r s new e in
      let found = find-renewed id j metadata r.scopes v.scopes_map in
      let found_process = find-renewed id j p r.processes v.processes_map in
      let same = v.paired in
      (
        record {
          scopes_map = rw scopes (renewed-IsMap id metadata known r.scopes v.scopes_map);
          processes_map = rw processes (renewed-IsMap id p known r.processes v.processes_map);
          paired =
              rw (scopes, processes, found, same, found_process)
                (is_some-if (text_eq id j) metadata (find j r.scopes) p (find j r.processes)
                  w.paired);
        },
        rw scopes found,
        answer,
      )

  forget-IsPaired :
      (id j : Text) (thrown : Bool) (r : Registry M)
      → IsPaired id r
      → IsPaired j r
      → IsPaired j (forget id thrown r).0
        × (find j (forget id thrown r).0.scopes ≡ (if text_eq id j then none else find j r.scopes))
        × ((forget id thrown r).1 ≡ (
            if thrown
            then returned (err resource_error)
            else returned (ok (is_some (find id r.scopes)))))
  unfolding forget
  forget-IsPaired id j thrown r v w =
      let found = find-erase id j r.scopes v.scopes_map in
      let found_process = find-erase id j r.processes v.processes_map in
      (
        record {
          scopes_map = ground (arith, erase-IsMap id r.scopes v.scopes_map);
          processes_map = ground (arith, erase-IsMap id r.processes v.processes_map);
          paired = ground (arith, found, found_process, w.paired);
        },
        ground (arith, found),
        refl,
      )

  -- What a removal leaves and answers.
  pub record Forgets (id j : Text) (r : Registry M) (x : Registry M × Returned Bool) : Type ℓ where
    pub pairs : IsPaired j x.0
    pub found : find j x.0.scopes ≡ (if text_eq id j then none else find j r.scopes)
    pub answer :
        (x.1 ≡ returned (ok (is_some (find id r.scopes)))) ⊎ (x.1 ≡ returned (err resource_error))

  forget-Forgets :
      (id j : Text) (thrown : Bool) (r : Registry M)
      → IsPaired id r
      → IsPaired j r
      → Forgets id j r (forget id thrown r)
  forget-Forgets id j thrown r v w =
      let (pairs, found, answer) = forget-IsPaired id j thrown r v w in
      record { pairs = pairs; found = found; answer = by_answer thrown answer }
    where
      by_answer :
          (b : Bool)
          → (forget id thrown r).1 ≡ (
              if b
              then returned (err resource_error)
              else returned (ok (is_some (find id r.scopes))))
          → ((forget id thrown r).1 ≡ returned (ok (is_some (find id r.scopes))))
            ⊎ ((forget id thrown r).1 ≡ returned (err resource_error))
      by_answer true e = inr e
      by_answer false e = inl e

  forget_after_kill-Forgets :
      (id j : Text) (r : Registry M) (k : ScopeProcess × Outcome)
      → IsPaired id r
      → IsPaired j r
      → (forget_after_kill id r k).1 ≢ never
      → Forgets id j r (forget_after_kill id r k)
  unfolding forget_after_kill
  forget_after_kill-Forgets id j r (p, done) v w h = forget-Forgets id j false r v w
  forget_after_kill-Forgets id j r (p, threw) v w h = forget-Forgets id j true r v w
  forget_after_kill-Forgets id j r (p, waits_forever) v w h = absurd (h refl)

  -- Removing a scope that has an id returns, unless the kill waits forever; then the id is in
  -- neither map, every other id has what it had, also where the kill threw, and the answer is that
  -- exception or whether the scope was known.
  pub remove_local_scope-Forgets :
      (env : KillEnv) (id j : Text) (r : Registry M)
      → id ≢ []
      → IsPaired id r
      → IsPaired j r
      → (remove_local_scope env id r).1 ≢ never
      → Forgets id j r (remove_local_scope env id r)
  unfolding remove_local_scope
  remove_local_scope-Forgets env [] j r h v w k = absurd (h refl)
  remove_local_scope-Forgets env (c ∷ id) j r h v w k =
      elim (Option-cases (find (c ∷ id) r.processes)) [
        | inl missing ↦ rw (remove_local_scope, missing) (forget-Forgets (c ∷ id) j false r v w)
        | inr (p, there) ↦
            rw (remove_local_scope, there)
              (forget_after_kill-Forgets (c ∷ id) j r (kill env p) v w
                (rw (remove_local_scope, there) at k))
      ]

  located-IsPaired :
      (id j : Text) (metadata : M) (r : Registry M) (e : ScopeProcess × Outcome)
      → IsPaired j r
      → IsPaired j (located id metadata r e).0
  unfolding located
  located-IsPaired id j metadata r (p, done) w = replaced-IsPaired j id p r w
  located-IsPaired id j metadata r (p, threw) w = replaced-IsPaired j id p r w
  located-IsPaired id j metadata r (p, waits_forever) w = replaced-IsPaired j id p r w

  locate_known-IsPaired :
      (env : ExecEnv) (id j : Text) (m : Option M) (p : Option ScopeProcess) (r : Registry M)
      → IsPaired j r
      → IsPaired j (locate_known env id m p r).0
  unfolding locate_known
  locate_known-IsPaired env id j none p r w = w
  locate_known-IsPaired env id j (some m) none r w = w
  locate_known-IsPaired env id j (some m) (some p) r w = located-IsPaired id j m r (exec env p) w

  -- Locating a scope, a death and a message from a scope leave the pairing of the maps.
  pub locate-IsPaired :
      (env : ExecEnv) (id j : Text) (r : Registry M) → IsPaired j r → IsPaired j (locate env id r).0
  unfolding locate
  locate-IsPaired env [] j r w = w
  locate-IsPaired env (c ∷ id) j r w =
      locate_known-IsPaired env (c ∷ id) j (find (c ∷ id) r.scopes) (find (c ∷ id) r.processes) r w

  pub process_died-IsPaired :
      (pid : ℤ) (j : Text) (r : Registry M) → IsPaired j r → IsPaired j (process_died pid r)
  unfolding process_died
  process_died-IsPaired pid j r w = record {
    scopes_map = w.scopes_map;
    processes_map = death_in-IsMap pid r.processes w.processes_map;
    paired = w.paired ∙ sym (is_some-death_in pid j r.processes);
  }

  pub on_state_received-IsPaired :
      (id j : Text) (s : ReceivedState) (r : Registry M)
      → IsPaired j r
      → IsPaired j (on_state_received id s r)
  unfolding on_state_received
  on_state_received-IsPaired id j s r w = elim (Option-cases (find id r.processes)) [
    | inl missing ↦ rw (on_state_received, missing) w
    | inr (p, there) ↦ rw (on_state_received, there) (replaced-IsPaired j id (state_in s p) r w)
  ]

  forget_after_kill-IsPaired :
      (id j : Text) (r : Registry M) (k : ScopeProcess × Outcome)
      → IsPaired id r
      → IsPaired j r
      → IsPaired j (forget_after_kill id r k).0
  unfolding forget_after_kill
  forget_after_kill-IsPaired id j r (p, done) v w = (forget-IsPaired id j false r v w).0
  forget_after_kill-IsPaired id j r (p, threw) v w = (forget-IsPaired id j true r v w).0
  forget_after_kill-IsPaired id j r (p, waits_forever) v w = replaced-IsPaired j id p r w

  pub remove_local_scope-IsPaired :
      (env : KillEnv) (id j : Text) (r : Registry M)
      → IsPaired id r
      → IsPaired j r
      → IsPaired j (remove_local_scope env id r).0
  unfolding remove_local_scope
  remove_local_scope-IsPaired env [] j r v w = w
  remove_local_scope-IsPaired env (c ∷ id) j r v w =
      elim (Option-cases (find (c ∷ id) r.processes)) [
        | inl missing ↦ rw (remove_local_scope, missing) (forget-IsPaired (c ∷ id) j false r v w).0
        | inr (p, there) ↦
            rw (remove_local_scope, there)
              (forget_after_kill-IsPaired (c ∷ id) j r (kill env p) v w)
      ]
