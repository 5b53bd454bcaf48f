-- ===== src/Server/Ends.antt =====
-- The turns of the tasks end: each task has at most five.
use capnp_ls.Prelude.{
  ℕ, suc, ◌+◌, ◌*◌, ◌≤◌, [], ◌∷◌, ◌++◌, true, false, Option, none, some, Bytes, List, length,
  Result, ◌≡◌, refl, ap, arith,
}
use capnp_ls.SubprocessRunner.{RunResult}
use capnp_ls.LspMessageHandler.Handlers.{Handler, World}
use capnp_ls.Server.Tasks.{
  Stage, checking, checked, running, compiled, Job, Reply, Task, Turn, begin_run, turn_job,
  turn_reply, turn_parts, turn,
}
use capnp_ls.Server.Loop.{Server, pending, turned}

-- The turns that a task has left, at most.
abbrev pub turns_of_stage : Stage → ℕ
turns_of_stage checking = 5
turns_of_stage (checked compatible) = 4
turns_of_stage (running command) = 3
turns_of_stage compiled = 2

abbrev pub turns_of_job : Option Job → ℕ
turns_of_job none = 1
turns_of_job (some job) = turns_of_stage job.stage

abbrev pub turns_left : List Task → ℕ
turns_left [] = 0
turns_left (task ∷ tasks) = turns_of_job task.job + turns_left tasks

turns_left-append : (xs ys : List Task) → turns_left (xs ++ ys) ≡ turns_left xs + turns_left ys
turns_left-append [] ys = omega arith
turns_left-append (x ∷ xs) ys = omega (arith, turns_left-append xs ys)

turns_of_stage-le : (stage : Stage) → turns_of_stage stage ≤ 5
turns_of_stage-le checking = omega arith
turns_of_stage-le (checked compatible) = omega arith
turns_of_stage-le (running command) = omega arith
turns_of_stage-le compiled = omega arith

turns_of_job-le : (job : Option Job) → turns_of_job job ≤ 5
turns_of_job-le none = omega arith
turns_of_job-le (some job) = turns_of_stage-le job.stage

turns_left-le : (tasks : List Task) → turns_left tasks ≤ 5 * length tasks
turns_left-le [] = omega arith
turns_left-le (task ∷ tasks) = omega (arith, turns_of_job-le task.job, turns_left-le tasks)

begin_run-le : (command : Option Bytes) → turns_of_stage (begin_run command) ≤ 3
unfolding begin_run
begin_run-le none = omega arith
begin_run-le (some command) = omega arith

module _ {Reader : Type 0} (world : World Reader) where
  job-lt :
      (r : Result (RunResult Reader)) (stage : Stage) (job : Job) (reply : Option Reply)
      (h : Handler)
      → turns_left (pending (turn_job world r stage job reply h).1) + 1 ≤ turns_of_stage stage
  unfolding turn_job
  job-lt r checking job reply h = omega arith
  job-lt r (checked false) job reply h = omega arith
  job-lt r (checked true) job reply h = omega (arith, begin_run-le _)
  job-lt r (running command) job reply h = omega arith
  job-lt r compiled job reply h = omega arith

  parts-lt :
      (r : Result (RunResult Reader)) (job : Option Job) (reply : Option Reply) (h : Handler)
      → turns_left (pending (turn_parts world r job reply h).1) + 1 ≤ turns_of_job job
  unfolding turn_parts turn_reply
  parts-lt r none none h = omega arith
  parts-lt r none (some reply) h = omega arith
  parts-lt r (some job) reply h = job-lt r job.stage job reply h

  -- Turns of tasks, with no new message between; the number counts them.
  pub data Turns (s : Server) : ℕ → Server → Type 0 where
    none_yet : Turns s 0 s
    one_more :
        {n : ℕ} {t : Server} (before after : List Task) (task : Task)
        (r : Result (RunResult Reader))
        → Turns s n t
        → t.tasks ≡ before ++ (task ∷ after)
        → Turns s (suc n) (turned before after (turn world r task t.handler) t)

  tasks-turned :
      (before after : List Task) (t : Turn) (s : Server)
      → (turned before after t s).tasks ≡ before ++ (pending t.1 ++ after)
  unfolding turned
  tasks-turned before after t s = refl

  turned-lt :
      (before after : List Task) (task : Task) (r : Result (RunResult Reader)) (s : Server)
      → s.tasks ≡ before ++ (task ∷ after)
      → turns_left (turned before after (turn world r task s.handler) s).tasks + 1
        ≤ turns_left s.tasks
  turned-lt before after task r s e =
      let next = (turn world r task s.handler).1 in
      omega (
        arith,
        ap turns_left e,
        ap turns_left (tasks-turned before after (turn world r task s.handler) s),
        turns_left-append before (task ∷ after),
        turns_left-append before (pending next ++ after),
        turns_left-append (pending next) after,
        parts-lt r task.job task.reply s.handler,
      )

  Turns-left : {s t : Server} {n : ℕ} → Turns s n t → n + turns_left t.tasks ≤ turns_left s.tasks
  Turns-left none_yet = omega arith
  Turns-left (one_more {t = t} before after task r more e) =
      omega (arith, Turns-left more, turned-lt before after task r t e)

  -- Whatever the order of the turns and the results of the processes, there are at most five turns to
  -- each task that waits, until new messages come.
  pub Turns-le : {s t : Server} {n : ℕ} → Turns s n t → n ≤ 5 * length s.tasks
  Turns-le {s = s} more = omega (arith, Turns-left more, turns_left-le s.tasks)
