-- ===== src/Job/Cleanup.antt =====
-- The loops over `cleanup_job`: what `cleanup_idle_jobs` and `force_cleanup_all` leave in the map,
-- against a description that filters the entries.
use windows_command_runner.Base.{
  ℕ, ◌+◌, ◌≡◌, refl, ap, ◌∙◌, inl, inr, Bool, true, false, not, List, [], ◌∷◌, ◌==◌, if◌then◌else◌,
  arith, length, All, Bool-cases, ==_iff,
}
use windows_command_runner.Base.Assoc.{
  contains_key, remove, keys, keep, UniqueKeys, remove-UniqueKeys, remove_absent, length-remove,
  get-eq-none, contains_key_of_get,
}
use windows_command_runner.Error.{ok}
use windows_command_runner.Job.Handle.{JobHandle}
use windows_command_runner.Job.Calls.{cleanup_job_cases}
use windows_command_runner.Job.Manager.{
  JobManager, cleanup_job, cleanup_each, count_ok, force_cleanup_all, should_cleanup, to_remove,
  is_quiet, cleanup_idle_jobs,
}

-- The keys of the entries whose value passes a test.
select : (JobHandle → Bool) → List (ℕ × JobHandle) → List ℕ
select p [] = []
select p ((k, j) ∷ m) = let rest = select p m in if p j then k ∷ rest else rest

remove_each : List ℕ → List (ℕ × JobHandle) → List (ℕ × JobHandle)
remove_each [] m = m
remove_each (k ∷ ks) m = remove_each ks (remove k m)

to_remove-select :
    (now idle : ℕ) (m : List (ℕ × JobHandle))
    → to_remove now idle m ≡ select (should_cleanup now idle) m
unfolding to_remove select
to_remove-select now idle [] = refl
to_remove-select now idle ((k, j) ∷ m) = ground (arith, to_remove-select now idle m)

keys-select : (m : List (ℕ × JobHandle)) → keys m ≡ select (λ _. true) m
unfolding keys select
keys-select [] = refl
keys-select ((k, j) ∷ m) = ap (◌∷◌ k) (keys-select m)

select_absent :
    (p : JobHandle → Bool) (k : ℕ) (m : List (ℕ × JobHandle))
    → contains_key k m ≡ false
    → All (λ i. (k == i) ≡ false) (select p m)
unfolding select contains_key
select_absent p k [] h = tt
select_absent p k ((i, j) ∷ m) h = ground (arith, select_absent p k m)

remove_each_other :
    (ks : List ℕ) (k : ℕ) (j : JobHandle) (m : List (ℕ × JobHandle))
    → All (λ i. (k == i) ≡ false) ks
    → remove_each ks ((k, j) ∷ m) ≡ (k, j) ∷ remove_each ks m
unfolding remove_each remove
remove_each_other [] k j m h = refl
remove_each_other (i ∷ ks) k j m h = rw h.0 (remove_each_other ks k j (remove i m) h.1)

remove_each-select :
    (p : JobHandle → Bool) (m : List (ℕ × JobHandle))
    → UniqueKeys m
    → remove_each (select p m) m ≡ keep (λ j. not (p j)) m
unfolding remove_each select remove keep
remove_each-select p [] u = refl
remove_each-select p ((k, j) ∷ m) u = elim (Bool-cases (p j)) [
  | inl gone ↦
      rw (gone, remove_each, (==_iff k k).1 refl)
        (rw (remove_absent k m u.0) (remove_each-select p m u.1))
  | inr stays ↦ rw stays (
      remove_each_other (select p m) k j m (select_absent p k m u.0)
      ∙ ap (◌∷◌ (k, j)) (remove_each-select p m u.1))
]

jobs-cleanup_job : (m : JobManager) (id : ℕ) → (cleanup_job m id).0.jobs ≡ remove id m.jobs
jobs-cleanup_job m id = elim (cleanup_job_cases m id) [
  | inl (e, q) ↦ rw (q, remove_absent id m.jobs (get-eq-none id m.jobs e))
  | inr (job, e, q) ↦ rw q
]

jobs-cleanup_each :
    (m : JobManager) (ids : List ℕ) (c : ℕ) → (cleanup_each m ids c).0.jobs ≡ remove_each ids m.jobs
unfolding cleanup_each remove_each
jobs-cleanup_each m [] c = refl
jobs-cleanup_each m (id ∷ ids) c =
    jobs-cleanup_each (cleanup_job m id).0 ids (count_ok (cleanup_job m id).1 c)
    ∙ ap (remove_each ids) (jobs-cleanup_job m id)

-- A success takes one entry away, a failure none.
count-cleanup_job :
    (m : JobManager) (id c : ℕ)
    → UniqueKeys m.jobs
    → count_ok (cleanup_job m id).1 c + length (cleanup_job m id).0.jobs ≡ c + length m.jobs
count-cleanup_job m id c u = elim (cleanup_job_cases m id) [
  | inl (e, q) ↦ rw q
  | inr (job, e, q) ↦
      rw q (ground (arith, length-remove id m.jobs u, contains_key_of_get id m.jobs job e))
]

count-cleanup_each :
    (m : JobManager) (ids : List ℕ) (c : ℕ)
    → UniqueKeys m.jobs
    → (cleanup_each m ids c).1 + length (cleanup_each m ids c).0.jobs ≡ c + length m.jobs
unfolding cleanup_each
count-cleanup_each m [] c u = refl
count-cleanup_each m (id ∷ ids) c u =
    count-cleanup_each (cleanup_job m id).0 ids (count_ok (cleanup_job m id).1 c)
      (rw (jobs-cleanup_job m id) (remove-UniqueKeys id m.jobs u))
    ∙ count-cleanup_job m id c u

keep_none : (m : List (ℕ × JobHandle)) → keep (λ _. false) m ≡ []
unfolding keep
keep_none [] = refl
keep_none ((k, j) ∷ m) = keep_none m

remove_each-keys : (m : List (ℕ × JobHandle)) → UniqueKeys m → remove_each (keys m) m ≡ []
remove_each-keys m u = rw (keys-select m) (remove_each-select (λ _. true) m u ∙ keep_none m)

-- With no id twice in the map: when the manager is quiet the cleanup empties the map; otherwise it
-- takes out exactly the entries that are due. The number that it returns is the number of entries
-- taken out.
pub cleanup_idle_jobs_lem :
    (m : JobManager) (now idle quiet : ℕ)
    → UniqueKeys m.jobs
    → ((cleanup_idle_jobs m now idle quiet).0.jobs ≡ (
        if is_quiet m now quiet
        then []
        else keep (λ job. not (should_cleanup now idle job)) m.jobs))
      × ((cleanup_idle_jobs m now idle quiet).1 + length (cleanup_idle_jobs m now idle quiet).0.jobs
          ≡ length m.jobs)
unfolding cleanup_idle_jobs
cleanup_idle_jobs_lem m now idle quiet u = elim (Bool-cases (is_quiet m now quiet)) [
  | inl q ↦ rw q (
    jobs-cleanup_each m (keys m.jobs) 0 ∙ remove_each-keys m.jobs u,
    rw (count-cleanup_each m (keys m.jobs) 0 u) (omega arith),
  )
  | inr q ↦ rw q (
    rw (jobs-cleanup_each m (to_remove now idle m.jobs) 0, to_remove-select now idle m.jobs)
        (remove_each-select (should_cleanup now idle) m.jobs u),
    rw (count-cleanup_each m (to_remove now idle m.jobs) 0 u) (omega arith),
  )
]

-- `force_cleanup_all` succeeds and empties a map with no id twice.
pub force_cleanup_all_lem :
    (m : JobManager)
    → UniqueKeys m.jobs
    → ((force_cleanup_all m).0.jobs ≡ []) × ((force_cleanup_all m).1 ≡ ok tt)
unfolding force_cleanup_all
force_cleanup_all_lem m u = (jobs-cleanup_each m (keys m.jobs) 0 ∙ remove_each-keys m.jobs u, refl)
