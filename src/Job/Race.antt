-- ===== src/Job/Race.antt =====
-- `create_job` of src/job_manager.rs called by several clients at once: its test of the limit, its
-- count of ids and its insertion are three steps, which may mix with those of other calls and with
-- `cleanup_job`.
use windows_command_runner.Base.{
  ℕ, suc, ◌+◌, ◌-◌, ◌<◌, ◌≤◌, ◌≡◌, ◌∙◌, none, refl, Bool, true, false, Option, List, [], ◌∷◌, leb,
  ltb, ◌==◌, if◌then◌else◌, arith, length, Bool-cases, inl, inr,
}
use windows_command_runner.Base.Assoc.{contains_key, insert, remove, length-insert_new}
use windows_command_runner.Job.Manager.{JobManager, new_manager, next_id, fresh_job, cleanup_job}
use windows_command_runner.Job.Handle.{JobHandle}
use windows_command_runner.Job.Calls.{cleanup_job_cases}

-- The manager, with the calls that have passed the test, and the ids of those that have one.
pub record Creating : Type 0 where
  pub manager : JobManager
  pub admitted : ℕ
  pub numbered : List ℕ

-- A step of one of the calls of `create_job`, or a call of `cleanup_job`.
pub data CreateStep : Type 0 where
  tests numbers : CreateStep
  inserts : ℕ → Option ℕ → ℕ → CreateStep  -- an id, the timeout and the time
  cleans : ℕ → CreateStep

unfoldable pub is_numbered : ℕ → List ℕ → Bool
is_numbered id [] = false
is_numbered id (x ∷ xs) = let rest = is_numbered id xs in if x == id then true else rest

unfoldable pub without_id : ℕ → List ℕ → List ℕ
without_id id [] = []
without_id id (x ∷ xs) = let rest = without_id id xs in if x == id then xs else x ∷ rest

abbrev pub calls_under_way : Creating → ℕ
calls_under_way s = s.admitted + length s.numbered

-- The arm of the insertion, for an id that is there or not.
abbrev pub insert_handle : JobManager → ℕ → Option ℕ → ℕ → JobManager
insert_handle m id timeout now =
    if contains_key id m.jobs
    then m
    else record m { jobs = insert id (fresh_job id timeout now) m.jobs; last_job_created = now }

abbrev pub new_creating : ℕ → ℕ → Creating
new_creating limit now = record { manager = new_manager limit now; admitted = 0; numbered = [] }

length-remove_le : (k : ℕ) (m : List (ℕ × JobHandle)) → length (remove k m) ≤ length m
unfolding remove
length-remove_le k [] = omega arith
length-remove_le k ((j, v) ∷ m) = ground (arith, length-remove_le k m)

module _ (callers : ℕ) where
  -- At most a number of calls are under way.
  unfoldable pub create_step : Creating → CreateStep → Creating
  create_step s tests =
      if ltb (calls_under_way s) callers
      then if leb s.manager.max_concurrent_jobs (length s.manager.jobs)
        then s
        else record s { admitted = suc s.admitted }
      else s
  create_step s numbers =
      if s.admitted == 0
      then s
      else let (id, counter) = next_id s.manager.next_job_id in
        record s {
          manager = record s.manager { next_job_id = counter };
          admitted = s.admitted - 1;
          numbered = id ∷ s.numbered;
        }
  create_step s (inserts id timeout now) =
      if is_numbered id s.numbered
      then record s {
        manager = insert_handle s.manager id timeout now;
        numbered = without_id id s.numbered;
      }
      else s
  create_step s (cleans id) = record s { manager = (cleanup_job s.manager id).0 }

  unfoldable pub create_steps : Creating → List CreateStep → Creating
  unfolding create_step
  create_steps s [] = s
  create_steps s (c ∷ cs) = create_steps (create_step s c) cs

  length-without_id :
      (id : ℕ) (xs : List ℕ)
      → is_numbered id xs ≡ true
      → suc (length (without_id id xs)) ≡ length xs
  unfolding is_numbered without_id
  length-without_id id [] e = absurd (ground arith)
  length-without_id id (x ∷ xs) e = ground (arith, length-without_id id xs)

  -- The jobs, with those that the calls under way may still add.
  record IsNear (limit : ℕ) (s : Creating) : Type 0 where
    same : s.manager.max_concurrent_jobs ≡ limit
    near : length s.manager.jobs + calls_under_way s < limit + callers

  insert_handle-length :
      (m : JobManager) (id : ℕ) (timeout : Option ℕ) (now : ℕ)
      → length (insert_handle m id timeout now).jobs ≤ suc (length m.jobs)
  insert_handle-length m id timeout now = elim (Bool-cases (contains_key id m.jobs)) [
    | inl e ↦ rw e (omega arith)
    | inr e ↦ rw e (omega (arith, length-insert_new id (fresh_job id timeout now) m.jobs e))
  ]

  insert_handle-limit :
      (m : JobManager) (id : ℕ) (timeout : Option ℕ) (now : ℕ)
      → (insert_handle m id timeout now).max_concurrent_jobs ≡ m.max_concurrent_jobs
  insert_handle-limit m id timeout now = ground arith

  create_step-IsNear :
      (limit : ℕ) (s : Creating) (c : CreateStep) → IsNear limit s → IsNear limit (create_step s c)
  unfolding create_step
  create_step-IsNear limit s tests v = record {
    same = ground (arith, v.same);
    near = ground (arith, v.near, v.same);
  }
  create_step-IsNear limit s numbers v = record {
    same = ground (arith, v.same);
    near = ground (arith, v.near);
  }
  create_step-IsNear limit s (inserts id timeout now) v =
      elim (Bool-cases (is_numbered id s.numbered)) [
        | inl e ↦ rw e (record {
          same = insert_handle-limit s.manager id timeout now ∙ v.same;
          near = omega (
            arith,
            v.near,
            insert_handle-length s.manager id timeout now,
            length-without_id id s.numbered e,
          );
        })
        | inr e ↦ rw e v
      ]
  create_step-IsNear limit s (cleans id) v = elim (cleanup_job_cases s.manager id) [
    | inl (_, q) ↦ rw q v
    | inr (_, _, q) ↦
        rw q (record {
          same = v.same;
          near = omega (arith, v.near, length-remove_le id s.manager.jobs);
        })
  ]

  create_steps-IsNear :
      (limit : ℕ) (s : Creating) (cs : List CreateStep)
      → IsNear limit s
      → IsNear limit (create_steps s cs)
  unfolding create_steps
  create_steps-IsNear limit s [] v = v
  create_steps-IsNear limit s (c ∷ cs) v =
      create_steps-IsNear limit (create_step s c) cs (create_step-IsNear limit s c v)

  -- If at most a positive number of calls of `create_job` run at once, on a new manager, then
  -- whatever the order of their steps and of the clean-ups between them, the jobs exceed the
  -- limit by less than that number.
  pub create_steps_bounded :
      (limit now : ℕ) (cs : List CreateStep)
      → 0 < callers
      → length (create_steps (new_creating limit now) cs).manager.jobs < limit + callers
  create_steps_bounded limit now cs h =
      let v =
        create_steps-IsNear limit (new_creating limit now) cs (new_creating-IsNear limit now h) in
      omega (arith, v.near)
    where
      new_creating-IsNear : (limit now : ℕ) → 0 < callers → IsNear limit (new_creating limit now)
      new_creating-IsNear limit now h =
          unfold new_manager in record { same = refl; near = omega arith }

-- With two calls at once on a manager for one job, there can be two jobs.
create_steps_exceed :
    (now : ℕ)
    → (cs : List CreateStep) × (length (create_steps 2 (new_creating 1 now) cs).manager.jobs ≡ 2)
unfolding create_steps create_step new_manager next_id contains_key insert remove is_numbered
    without_id
create_steps_exceed now =
    (tests ∷ tests ∷ numbers ∷ numbers ∷ inserts 1 none now ∷ inserts 2 none now ∷ [], refl)
