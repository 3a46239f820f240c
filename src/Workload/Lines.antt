-- ===== src/Workload/Lines.antt =====
-- The lines of a workload as requests, and the order in which they reach the database.
use lsm_workload_aware_compa.Prelude.{
  ◌+◌, ◌%◌, ◌^◌, ◌<◌, ◌≡◌, refl, sym, ap, ◌∙◌, Bool, true, false, Option, some, List, [], ◌∷◌, ◌++◌,
  arith, is_empty, length, ◌>>=◌, if◌then◌else◌, All,
}
use lsm_workload_aware_compa.Buffer.{Text}
use lsm_workload_aware_compa.Workload.{Database, Timer, Progress, perform, record_time, step}
use lsm_workload_aware_compa.Workload.Requests.{
  Request, insert, update, delete_range, scan, delete, query, no_match, read_request,
}

-- The requests of the lines in front of the first empty one; none if one of them is all white space.
unfoldable pub requests_of : List Text → Option (List Request)
requests_of [] = some []
requests_of (line ∷ lines) =
    if is_empty line
    then some []
    else (read_request line >>= λ request.
        requests_of lines >>= λ requests. some (request ∷ requests))

-- A scan reports its failure in the log only.
abbrev pub sets_status : Request → Bool
sets_status (scan start_key end_key) = false
sets_status no_match = false
sets_status _ = true

abbrev pub only_reads : Request → Bool
only_reads (query key) = true
only_reads (scan start_key end_key) = true
only_reads no_match = true
only_reads _ = false

module _ (d : Database) (t : Timer) where
  unfoldable pub perform_all : Progress d → List Request → Progress d
  perform_all p [] = p
  perform_all p (request ∷ requests) = perform_all (step d t p request) requests

  pub counted : (p : Progress d) (r : Request) → (step d t p r).ith_op ≡ (p.ith_op + 1) % 2 ^ 64
  unfolding step perform record_time
  counted p (insert key value) = refl
  counted p (update key value) = refl
  counted p (delete key) = refl
  counted p (query key) = refl
  counted p (scan start_key end_key) = refl
  counted p (delete_range start_key end_key) = refl
  counted p no_match = refl

  pub count_in_order :
      (requests : List Request) (p : Progress d)
      → p.ith_op < 2 ^ 64
      → (perform_all p requests).ith_op ≡ (p.ith_op + length requests) % 2 ^ 64
  unfolding perform_all
  count_in_order [] p small = omega arith
  count_in_order (r ∷ rs) p small =
      omega (arith, counted p r, count_in_order rs (step d t p r) (omega (arith, counted p r)))

  step_ok :
      (p : Progress d) (a : Bool) (r : Request)
      → (c : Bool) × (step d t (record p { ok = a }) r ≡ record (step d t p r) { ok = c })
  unfolding step perform record_time
  step_ok p a (insert key value) = ((d.put p.db key value).0, refl)
  step_ok p a (update key value) = ((d.put p.db key value).0, refl)
  step_ok p a (delete key) = ((d.delete_key p.db key).0, refl)
  step_ok p a (query key) = (d.get p.db key, refl)
  step_ok p a (scan start_key end_key) = (a, refl)
  step_ok p a (delete_range start_key end_key) =
      ((d.delete_range_of p.db start_key end_key).0, refl)
  step_ok p a no_match = (a, refl)

  all_ok :
      (requests : List Request) (p : Progress d) (a : Bool)
      → (c : Bool) × (perform_all (record p { ok = a }) requests
          ≡ record (perform_all p requests) { ok = c })
  unfolding perform_all
  all_ok [] p a = (a, refl)
  all_ok (r ∷ rs) p a =
      let (b, e) = step_ok p a r in
      let (c, f) = all_ok rs (step d t p r) b in (c, ap (λ q. perform_all q rs) e ∙ f)

  step_screen :
      (p : Progress d) (x : Text) (r : Request)
      → step d t (record p { screen = x }) r ≡ record (step d t p r) { screen = x }
  unfolding step perform record_time
  step_screen p x (insert key value) = refl
  step_screen p x (update key value) = refl
  step_screen p x (delete key) = refl
  step_screen p x (query key) = refl
  step_screen p x (scan start_key end_key) = refl
  step_screen p x (delete_range start_key end_key) = refl
  step_screen p x no_match = refl

  -- What is on the screen makes no difference.
  pub all_screen :
      (requests : List Request) (p : Progress d) (x : Text)
      → perform_all (record p { screen = x }) requests
        ≡ record (perform_all p requests) { screen = x }
  unfolding perform_all
  all_screen [] p x = refl
  all_screen (r ∷ rs) p x =
      ap (λ q. perform_all q rs) (step_screen p x r) ∙ all_screen rs (step d t p r) x

  perform_all-append :
      (rs ss : List Request) (p : Progress d)
      → perform_all p (rs ++ ss) ≡ perform_all (perform_all p rs) ss
  unfolding perform_all
  perform_all-append [] ss p = refl
  perform_all-append (r ∷ rs) ss p = perform_all-append rs ss (step d t p r)

  last_ok :
      (p : Progress d) (a : Bool) (r : Request)
      → sets_status r ≡ true
      → (step d t (record p { ok = a }) r).ok ≡ (step d t p r).ok
  unfolding step perform record_time
  last_ok p a (insert key value) h = refl
  last_ok p a (update key value) h = refl
  last_ok p a (delete key) h = refl
  last_ok p a (query key) h = refl
  last_ok p a (scan start_key end_key) h = cc
  last_ok p a (delete_range start_key end_key) h = refl
  last_ok p a no_match h = cc

  -- What the assertion behind the loop sees is the status of the last request alone, if that request sets
  -- one: whether the requests up to any point in front of it were ok makes no difference.
  pub perform_all-forgets_status :
      (p : Progress d) (a : Bool) (requests : List Request) (r : Request)
      → sets_status r ≡ true
      → (perform_all (record p { ok = a }) (requests ++ r ∷ [])).ok
        ≡ (perform_all p (requests ++ r ∷ [])).ok
  unfolding perform_all
  perform_all-forgets_status p a requests r h =
      let (c, same) = all_ok requests p a in
      ap Progress.ok (perform_all-append requests (r ∷ []) (record p { ok = a }))
      ∙ ap (λ q. (step d t q r).ok) same
      ∙ last_ok (perform_all p requests) c r h
      ∙ ap Progress.ok (sym (perform_all-append requests (r ∷ []) p))

  kept : (p : Progress d) (r : Request) → only_reads r ≡ true → (step d t p r).db ≡ p.db
  unfolding step perform record_time
  kept p (insert key value) h = cc
  kept p (update key value) h = cc
  kept p (delete key) h = cc
  kept p (query key) h = refl
  kept p (scan start_key end_key) h = refl
  kept p (delete_range start_key end_key) h = cc
  kept p no_match h = refl

  -- A workload of queries, scans and unknown operations leaves the database as it is.
  pub perform_all-only_reads :
      (requests : List Request) (p : Progress d)
      → All (λ (r : Request). only_reads r ≡ true) requests
      → (perform_all p requests).db ≡ p.db
  unfolding perform_all
  perform_all-only_reads [] p h = refl
  perform_all-only_reads (r ∷ rs) p h = perform_all-only_reads rs (step d t p r) h.1 ∙ kept p r h.0
