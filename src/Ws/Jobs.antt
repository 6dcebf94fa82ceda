-- ===== src/Ws/Jobs.antt =====
-- ws/gateway.go: the channel of jobs between the read pumps and the workers. A worker that takes a
-- job up is a step of its own; what it then does with the frame is `safe_process`.
use maritime_simulation.Base.{ℕ, List, [], ◌∷◌, ◌++◌, length, ltb, if◌then◌else◌}
use maritime_simulation.Ws.Gateway.{Job}

-- jobQueueSize
abbrev pub job_queue_size : ℕ
job_queue_size = 8192

-- The channel `jobs`, the jobs that workers took, and the jobs that were shed, earliest first.
pub record Jobs : Type 0 where
  pub queue : List Job
  pub handed : List Job
  pub shed : List Job

unfoldable pub no_jobs : Jobs
no_jobs = record { queue = []; handed = []; shed = [] }

-- The callback for an inbound frame of HandleNodeWS: a send that does not block.
unfoldable pub offer : Job → Jobs → Jobs
offer j s =
    if ltb (length s.queue) job_queue_size
    then record s { queue = s.queue ++ (j ∷ []) }
    else record s { shed = s.shed ++ (j ∷ []) }

unfoldable pub take_first : List Job → Jobs → Jobs
take_first [] s = s
take_first (j ∷ rest) s = record s { queue = rest; handed = s.handed ++ (j ∷ []) }

-- A worker that is ready, in the loop of StartWorkers; on an empty channel it waits.
unfoldable pub take_job : Jobs → Jobs
take_job s = take_first s.queue s

pub data JobEvent : Type 0 where
  arrived : Job → JobEvent
  worker_ready : JobEvent

unfoldable pub on_job_event : JobEvent → Jobs → Jobs
on_job_event (arrived j) s = offer j s
on_job_event worker_ready s = take_job s

unfoldable pub on_job_events : List JobEvent → Jobs → Jobs
on_job_events [] s = s
on_job_events (e ∷ es) s = on_job_events es (on_job_event e s)
