-- ===== src/Processor/Lifecycle.antt =====
-- `start_notification_task` and `stop_notification_task` of `UtxoProcessor` as atomic steps beside
-- the tasks that they start and stop (src/wallet/core/utxo/processor.rs). The two channels of
-- `notification_ctl` are counted by the messages in them.
use kaspa_python_sdk.Prelude.{ℕ, zero, suc, ◌+◌, ◌≤◌, ◌<◌, ◌≡◌, refl, ◌⊎◌, inl, Bool, true, false}

pub record Life : Type 0 where
  pub notification_task : Bool
  -- tasks in the loop, tasks past a stop request that still drain, tasks that cleared the flag and
  -- are about to answer
  pub running : ℕ
  pub draining : ℕ
  pub answering : ℕ
  -- the messages in the request and in the response channel
  pub requests : ℕ
  pub responses : ℕ
  -- calls of stop that wait for an answer, and those that have it and are about to clear the flag
  pub waiting : ℕ
  pub storing : ℕ

abbrev pub initial : Life
initial = record {
  notification_task = false;
  running = 0;
  draining = 0;
  answering = 0;
  requests = 0;
  responses = 0;
  waiting = 0;
  storing = 0;
}

-- `free` allows what the code does not exclude: a task spawned while a call of stop is in flight, and
-- a channel that fails.
pub data Step (free : Bool) (l : Life) : Life → Type 0 where
  -- `compare_exchange(false, true)` succeeds, and the task is spawned
  start_spawns :
      l.notification_task ≡ false
      → (free ≡ true) ⊎ ((l.waiting ≡ 0) × (l.storing ≡ 0))
      → Step free l (record l { notification_task = true; running = suc l.running })
  -- the flag is read and the request is sent
  stop_signals :
      l.notification_task ≡ true
      → Step free l (record l { requests = suc l.requests; waiting = suc l.waiting })
  -- a task receives a request, and from then on only drains the events that wait
  task_takes :
      (requests running : ℕ)
      → l.requests ≡ suc requests
      → l.running ≡ suc running
      → Step free l (record l { requests = requests; running = running; draining = suc l.draining })
  -- the channel of the events fails in a task, which leaves the loop with no request
  task_fails :
      (running : ℕ)
      → free ≡ true
      → l.running ≡ suc running
      → Step free l (record l { running = running; draining = suc l.draining })
  -- `notification_task.store(false)` of the task
  task_clears :
      (draining : ℕ)
      → l.draining ≡ suc draining
      → Step free l
          (record l { notification_task = false; draining = draining; answering = suc l.answering })
  -- `ctl_sender.send(())`
  task_answers :
      (answering : ℕ)
      → l.answering ≡ suc answering
      → Step free l (record l { answering = answering; responses = suc l.responses })
  -- the answer arrives in a call of stop
  stop_receives :
      (responses waiting : ℕ)
      → l.responses ≡ suc responses
      → l.waiting ≡ suc waiting
      → Step free l (record l { responses = responses; waiting = waiting; storing = suc l.storing })
  -- `notification_task.store(false)` of stop
  stop_clears :
      (storing : ℕ)
      → l.storing ≡ suc storing
      → Step free l (record l { notification_task = false; storing = storing })

pub data Reach (free : Bool) (from : Life) : Life → Type 0 where
  here : Reach free from from
  next : {l m : Life} → Reach free from l → Step free l m → Reach free from m

-- What holds in every state of an orderly life.
pub record IsSound (l : Life) : Type 0 where
  pub one_task : l.running + l.draining ≤ 1
  -- the flag is set exactly while a task is in its loop
  pub flag_set : l.notification_task ≡ true → l.running + l.draining ≡ 1
  pub flag_unset : l.notification_task ≡ false → l.running + l.draining ≡ 0
  -- every call of stop that waits has one message or one task on its way
  pub answered : l.requests + l.draining + l.answering + l.responses ≡ l.waiting
  pub over : 0 < l.answering + l.responses + l.storing → l.running + l.draining ≡ 0

-- so many tasks in their loops, and the flag says that there is none
abbrev pub settled : ℕ → Life
settled n = record initial { running = n }

-- Where a task may be spawned while a call of stop is in flight, a stop that is overtaken by a start
-- leaves one task more: any number of tasks can come to run at a time, with the flag unset.
pub Reach-settled : (n : ℕ) → Reach true initial (settled n)
Reach-settled zero = here
Reach-settled (suc n) =
    next
      (next
        (next
          (next
            (next
              (next
                (next (next (Reach-settled n) (start_spawns refl (inl refl))) (stop_signals refl))
                (task_takes 0 n refl refl))
              (task_clears 0 refl))
            (start_spawns refl (inl refl)))
          (task_answers 0 refl))
        (stop_receives 0 0 refl refl))
      (stop_clears 0 refl)
