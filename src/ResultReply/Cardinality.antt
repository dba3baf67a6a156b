-- ===== src/ResultReply/Cardinality.antt =====
-- How many results reach the application, and when process_data asks for the end of the query.
use unity_scopes_api.Prelude.{
  ◌≡◌, ◌≢◌, refl, ℕ, suc, ◌+◌, ◌≤◌, Bool, true, List, [], ◌∷◌, ◌++◌, Option, none, some, codes,
  Result, ok, err, arith, length,
}
use unity_scopes_api.Prelude.Int.{pos, pos_part, neg_part}
use unity_scopes_api.Variant.{Value, dict, Fields, find, get_array, get_dict}
use unity_scopes_api.Departments
use unity_scopes_api.ResultReply.{
  Pushed, pushed_filters, pushed_filters_and_state, pushed_category, pushed_annotation,
  pushed_result, pushed_department, Surroundings, Replies, Action, next_or_thrown, ◌>>=◌, lift,
  calls, push, groups_in, filters_in, category_in, departments_in, annotation_in, result_in,
  process_data, process_each, push_result, count_push, new_replies,
}

abbrev pub result_count : List Pushed → ℕ
result_count [] = 0
result_count (pushed_result m ∷ ps) = suc (result_count ps)
result_count (_ ∷ ps) = result_count ps

result_count-append :
    (ps qs : List Pushed) → result_count (ps ++ qs) ≡ result_count ps + result_count qs
result_count-append [] qs = omega arith
result_count-append (p ∷ ps) qs = ground (arith, result_count-append ps qs)

-- Between two states no result was pushed or counted.
abbrev IsSame : {Kept : Type 0} → Replies Kept → Replies Kept → Type 0
IsSame s t = (t.num_pushes ≡ s.num_pushes) × (result_count t.pushed ≡ result_count s.pushed)

abbrev IsQuiet : {Kept T : Type 0} → Action Kept T → Type 0
IsQuiet {Kept} m = (s : Replies Kept) → IsSame s (m s).0

next_or_thrown-IsSame :
    {Kept S T : Type 0} (s t : Replies Kept) (r : Result S) (next : S → Action Kept T)
    → IsSame s t
    → ((a : S) → IsQuiet (next a))
    → IsSame s (next_or_thrown t r next).0
next_or_thrown-IsSame s t (ok a) next h k = ground (arith, h, k a t)
next_or_thrown-IsSame s t (err e) next h k = h

>>=-IsQuiet :
    {Kept S T : Type 0} (m : Action Kept S) (next : S → Action Kept T)
    → IsQuiet m
    → ((a : S) → IsQuiet (next a))
    → IsQuiet (m >>= next)
>>=-IsQuiet m next h k s = next_or_thrown-IsSame s (m s).0 (m s).1 next (h s) k

lift-IsQuiet : {Kept T : Type 0} (r : Result T) → IsQuiet {Kept = Kept} (lift r)
lift-IsQuiet r s = (refl, refl)

calls-IsQuiet : {Kept T : Type 0} (f : Kept → Kept × Result T) → IsQuiet (calls f)
calls-IsQuiet f s = (refl, refl)

-- Two actions that may throw and the push of something that is no result.
module _ {Kept : Type 0} (around : Surroundings Kept) where
  push-IsQuiet : (p : Pushed) → result_count (p ∷ []) ≡ 0 → IsQuiet (push around p)
  push-IsQuiet p h s = (refl, omega (arith, h, result_count-append s.pushed (p ∷ [])))

  built-IsQuiet :
      {S T : Type 0} (r : Result S) (made : S → Action Kept T) (p : S → T → Pushed)
      → ((a : S) → IsQuiet (made a))
      → ((a : S) (b : T) → result_count (p a b ∷ []) ≡ 0)
      → IsQuiet (lift r >>= λ a. made a >>= λ b. push around (p a b))
  built-IsQuiet r made p q h =
      >>=-IsQuiet (lift r) (λ a. made a >>= λ b. push around (p a b)) (lift-IsQuiet r)
        (λ a.
          >>=-IsQuiet (made a) (λ b. push around (p a b)) (q a) (λ b. push-IsQuiet (p a b) (h a b)))

  groups_in-IsQuiet : (v : Option Value) → IsQuiet (groups_in around v)
  unfolding groups_in
  groups_in-IsQuiet none s = (refl, refl)
  groups_in-IsQuiet (some v) s = ground arith

  filters_in-IsQuiet : (v g : Option Value) → IsQuiet (filters_in around v g)
  unfolding filters_in
  filters_in-IsQuiet none g = lift-IsQuiet (ok tt)
  filters_in-IsQuiet (some v) g = >>=-IsQuiet (groups_in around g) _ (groups_in-IsQuiet g) (λ gs.
      >>=-IsQuiet (lift (get_array v)) _ (lift-IsQuiet (get_array v)) (λ a.
        >>=-IsQuiet (calls (around.filters_from a gs)) _ (calls-IsQuiet (around.filters_from a gs))
          (λ done.
            >>=-IsQuiet (push around (pushed_filters_and_state a)) _
              (push-IsQuiet (pushed_filters_and_state a) refl)
              (λ pushed. push-IsQuiet (pushed_filters a) refl))))

  category_in-IsQuiet : (v : Option Value) → IsQuiet (category_in around v)
  unfolding category_in
  category_in-IsQuiet none = lift-IsQuiet (ok tt)
  category_in-IsQuiet (some v) =
      built-IsQuiet (get_dict v) (λ m. calls (around.category_from m)) (λ m done. pushed_category m)
        (λ m. calls-IsQuiet (around.category_from m)) (λ m done. refl)

  departments_in-IsQuiet : (v : Option Value) → IsQuiet (departments_in around v)
  unfolding departments_in
  departments_in-IsQuiet none = lift-IsQuiet (ok tt)
  departments_in-IsQuiet (some v) =
      >>=-IsQuiet (lift (get_dict v)) _ (lift-IsQuiet (get_dict v)) (λ m.
        built-IsQuiet (Departments.create m) (λ d. lift (Departments.validate_levels (some d)))
          (λ d done. pushed_department d) (λ d. lift-IsQuiet (Departments.validate_levels (some d)))
          (λ d done. refl))

  annotation_in-IsQuiet : (v : Option Value) → IsQuiet (annotation_in around v)
  unfolding annotation_in
  annotation_in-IsQuiet none = lift-IsQuiet (ok tt)
  annotation_in-IsQuiet (some v) =
      built-IsQuiet (get_dict v) (λ m. calls (around.annotation_from m))
        (λ m done. pushed_annotation m) (λ m. calls-IsQuiet (around.annotation_from m))
        (λ m done. refl)

  -- The count is exact below the limit of an int, and no more results were pushed than counted or
  -- than the cardinality allows.
  abbrev IsWithin : ℕ → ℕ → Replies Kept → Type 0
  IsWithin k n s =
      (neg_part s.num_pushes ≡ 0)
      × (pos_part s.num_pushes ≤ n)
      × (result_count s.pushed ≤ pos_part s.num_pushes)
      × (result_count s.pushed ≤ k)

  IsSame-IsWithin :
      (k n : ℕ) (s t : Replies Kept) → IsSame s t → IsWithin k n s → IsWithin k (suc n) t
  IsSame-IsWithin k n s t h w = ground (arith, h, w)

  abbrev IsOneMore : Replies Kept → Replies Kept → Type 0
  IsOneMore s t =
      (t.num_pushes ≡ s.num_pushes) × (result_count t.pushed ≤ suc (result_count s.pushed))

  -- An action counts one result at most.
  abbrev CountsOne : ℕ → {T : Type 0} → Action Kept T → Type 0
  CountsOne k m =
      (n : ℕ) (s : Replies Kept) → suc n ≤ 2147483647 → IsWithin k n s → IsWithin k (suc n) (m s).0

  next_or_thrown-CountsOne :
      {S T : Type 0} (k n : ℕ) (s t : Replies Kept) (r : Result S) (next : S → Action Kept T)
      → suc n ≤ 2147483647
      → IsSame s t
      → ((a : S) → CountsOne k (next a))
      → IsWithin k n s
      → IsWithin k (suc n) (next_or_thrown t r next).0
  next_or_thrown-CountsOne k n s t (ok a) next l h f w = f a n t l (ground (arith, h, w))
  next_or_thrown-CountsOne k n s t (err e) next l h f w = IsSame-IsWithin k n s t h w

  quiet-CountsOne :
      {S T : Type 0} (k : ℕ) (m : Action Kept S) (next : S → Action Kept T)
      → IsQuiet m
      → ((a : S) → CountsOne k (next a))
      → CountsOne k (m >>= next)
  quiet-CountsOne k m next h f n s l w =
      next_or_thrown-CountsOne k n s (m s).0 (m s).1 next l (h s) f w

  push_result-adds : (v : Value) (s : Replies Kept) → IsOneMore s (push_result around v s).0
  unfolding get_dict
  push_result-adds (dict m) s = ground (arith, result_count-append s.pushed (pushed_result m ∷ []))
  push_result-adds v s = ground arith

  result_in-CountsOne :
      (k : ℕ) (v : Option Value) → CountsOne (suc k) (result_in around (pos (suc k)) v)
  unfolding result_in
  result_in-CountsOne k none n s l w = ground (arith, w)
  result_in-CountsOne k (some v) n s l w = ground (arith, w, push_result-adds v (count_push s).0)

  process_data-CountsOne :
      (k : ℕ) (m : Fields) → CountsOne (suc k) (process_data around (pos (suc k)) m)
  unfolding process_data
  process_data-CountsOne k m =
      quiet-CountsOne (suc k)
        (filters_in around (find (codes "filters") m) (find (codes "filter_groups") m)) _
        (filters_in-IsQuiet (find (codes "filters") m) (find (codes "filter_groups") m))
        (λ done.
          quiet-CountsOne (suc k) (category_in around (find (codes "category") m)) _
            (category_in-IsQuiet (find (codes "category") m))
            (λ done.
              quiet-CountsOne (suc k) (departments_in around (find (codes "departments") m)) _
                (departments_in-IsQuiet (find (codes "departments") m))
                (λ done.
                  quiet-CountsOne (suc k) (annotation_in around (find (codes "annotation") m)) _
                    (annotation_in-IsQuiet (find (codes "annotation") m))
                    (λ done. result_in-CountsOne k (find (codes "result") m)))))

  process_each-IsWithin :
      (k n : ℕ) (ds : List Fields) (s : Replies Kept)
      → n + length ds ≤ 2147483647
      → IsWithin (suc k) n s
      → IsWithin (suc k) (n + length ds) (process_each around (pos (suc k)) ds s).0
  unfolding process_each
  process_each-IsWithin k n [] s l w = ground (arith, w)
  process_each-IsWithin k n (d ∷ ds) s l w = ground (
    arith,
    process_each-IsWithin k (suc n) ds (process_data around (pos (suc k)) d s).0 (omega (arith, l))
        (process_data-CountsOne k d n s (omega (arith, l)) w),
  )

  -- Under a cardinality above 0, no more results than that are pushed to the listener, whatever is
  -- received, whatever the other parts and the listener keep at first and change in a call, and
  -- whichever of their calls throws, as long as no more replies come than an int counts.
  pub process_each-cardinality :
      (k : ℕ) (ds : List Fields) (kept : Kept)
      → length ds ≤ 2147483647
      → result_count (process_each around (pos (suc k)) ds (new_replies kept)).0.pushed ≤ suc k
  process_each-cardinality k ds kept l = ground (
    arith,
    process_each-IsWithin k 0 ds (new_replies kept) (omega (arith, l))
        (refl, omega arith, omega arith, omega arith),
  )

  -- An action does not end with true.
  abbrev IsGoing : Action Kept Bool → Type 0
  IsGoing m = (s : Replies Kept) → (m s).1 ≢ ok true

  next_or_thrown-IsGoing :
      {S : Type 0} (t : Replies Kept) (r : Result S) (next : S → Action Kept Bool)
      → ((a : S) → IsGoing (next a))
      → (next_or_thrown t r next).1 ≢ ok true
  next_or_thrown-IsGoing t (ok a) next h e = h a t e
  next_or_thrown-IsGoing t (err thrown) next h e = cc

  >>=-IsGoing :
      {S : Type 0} (m : Action Kept S) (next : S → Action Kept Bool)
      → ((a : S) → IsGoing (next a))
      → IsGoing (m >>= next)
  >>=-IsGoing m next h s e = next_or_thrown-IsGoing (m s).0 (m s).1 next h e

  result_in-IsGoing : (v : Option Value) → IsGoing (result_in around (pos 0) v)
  unfolding result_in
  result_in-IsGoing none = λ s e. cc
  result_in-IsGoing (some v) = >>=-IsGoing (lift (get_dict v)) _ (λ m.
      >>=-IsGoing (calls (around.result_from m)) _
        (λ done. >>=-IsGoing (push around (pushed_result m)) _ (λ done s e. cc)))

  -- Without a cardinality, process_data never asks for the end of the query.
  pub process_data_unlimited :
      (m : Fields) (s : Replies Kept) → (process_data around (pos 0) m s).1 ≢ ok true
  unfolding process_data
  process_data_unlimited m =
      >>=-IsGoing (filters_in around (find (codes "filters") m) (find (codes "filter_groups") m)) _
        (λ done. >>=-IsGoing (category_in around (find (codes "category") m)) _ (λ done.
          >>=-IsGoing (departments_in around (find (codes "departments") m)) _ (λ done.
            >>=-IsGoing (annotation_in around (find (codes "annotation") m)) _
              (λ done. result_in-IsGoing (find (codes "result") m)))))
