-- ===== src/Connector/Routes.antt =====
-- packages/api/src/routes.ts: the table of the board's API, in its order; the executor of the connector
-- searches it. A handler is named, not modelled.
mod Tests
use superbull.Common.{List, [], ◌∷◌, Text, codes, map}
use superbull.Connector.Execute.{AppControllerRoute}

pub data Handler : Type 0 where
  get_redis_stats get_prometheus_metrics get_queues get_queue_metrics get_queue_job_names : Handler
  get_queue_workers get_queue_concurrency set_queue_concurrency get_queue_priorities : Handler
  get_queue_stats drain_queue obliterate_queue add_job apply_bulk_job_action pause_queue : Handler
  resume_queue empty_queue clean_queue retry_queue_jobs promote_queue_jobs get_job_logs : Handler
  retry_job promote_job remove_job update_job_data get_job : Handler

abbrev pub route_to : Text → Text → Handler → AppControllerRoute Handler
route_to method route handler = record { method = method; route = route; handler = handler }

abbrev pub app_routes : List (AppControllerRoute Handler)
app_routes =
    route_to (codes "get") (codes "/api/redis/stats") get_redis_stats
    ∷ route_to (codes "get") (codes "/api/prometheus") get_prometheus_metrics
    ∷ route_to (codes "get") (codes "/api/queues") get_queues
    ∷ route_to (codes "get") (codes "/api/queues/:queueName/metrics") get_queue_metrics
    ∷ route_to (codes "get") (codes "/api/queues/:queueName/job-names") get_queue_job_names
    ∷ route_to (codes "get") (codes "/api/queues/:queueName/workers") get_queue_workers
    ∷ route_to (codes "get") (codes "/api/queues/:queueName/concurrency") get_queue_concurrency
    ∷ route_to (codes "put") (codes "/api/queues/:queueName/concurrency") set_queue_concurrency
    ∷ route_to (codes "get") (codes "/api/queues/:queueName/priorities") get_queue_priorities
    ∷ route_to (codes "get") (codes "/api/queues/:queueName/stats") get_queue_stats
    ∷ route_to (codes "put") (codes "/api/queues/:queueName/drain") drain_queue
    ∷ route_to (codes "put") (codes "/api/queues/:queueName/obliterate") obliterate_queue
    ∷ route_to (codes "post") (codes "/api/queues/:queueName/add") add_job
    ∷ route_to (codes "post") (codes "/api/queues/:queueName/jobs/bulk") apply_bulk_job_action
    ∷ route_to (codes "put") (codes "/api/queues/:queueName/pause") pause_queue
    ∷ route_to (codes "put") (codes "/api/queues/:queueName/resume") resume_queue
    ∷ route_to (codes "put") (codes "/api/queues/:queueName/empty") empty_queue
    ∷ route_to (codes "put") (codes "/api/queues/:queueName/clean/:status") clean_queue
    ∷ route_to (codes "put") (codes "/api/queues/:queueName/retry/:status") retry_queue_jobs
    ∷ route_to (codes "put") (codes "/api/queues/:queueName/promote") promote_queue_jobs
    ∷ route_to (codes "get") (codes "/api/queues/:queueName/:jobId/logs") get_job_logs
    ∷ route_to (codes "put") (codes "/api/queues/:queueName/:jobId/retry") retry_job
    ∷ route_to (codes "put") (codes "/api/queues/:queueName/:jobId/promote") promote_job
    ∷ route_to (codes "put") (codes "/api/queues/:queueName/:jobId/clean") remove_job
    ∷ route_to (codes "patch") (codes "/api/queues/:queueName/:jobId/update-data") update_job_data
    ∷ route_to (codes "get") (codes "/api/queues/:queueName/:jobId") get_job
    ∷ []
