-- ===== src/Server/Handlers.antt =====
-- The handlers of internal/server/server.go as functions of the broker's state. A handler's status is
-- the one that it writes.
use gha_mac_broker.Prelude.{
  ℕ, Bool, false, not, ◌||◌, List, ◌∷◌, Option, none, some, ℤ, pos, leb_ℤ, is_pos, str_eq, is_some,
  if◌then◌else◌,
}
use gha_mac_broker.RunnerPool.Types.{Job, Pool}
use gha_mac_broker.RunnerPool.Jobs.{enqueue}
use gha_mac_broker.RunnerPool.Recycle.{cancel_job}
use gha_mac_broker.RunnerPool.Status.{Snapshot, snapshot}
use gha_mac_broker.HostedLoad.{mark_in_progress, mark_completed, is_hosted_macos_job, hosted_count}
use gha_mac_broker.Server.Types.{
  queued, in_progress, completed, closed, other_action, WebhookPayload, Config, ServerConfig,
  Request, Platform, Broker, Status, CapacityResponse,
}
use gha_mac_broker.Server.Images.{resolve_image, has_label}
use gha_mac_broker.Server.Guards.{check_webhook_ip, read_verified_body, check_bearer_token}

abbrev pub job_of : WebhookPayload → Job
job_of payload = record {
  repo = payload.full_name;
  job_id = payload.workflow_job.id;
  run_id = payload.workflow_job.run_id;
}

-- n < limit for a count and an int.
abbrev pub below : ℕ → ℤ → Bool
below n limit = not (leb_ℤ limit (pos n))

-- Pool.Ready
abbrev pub is_ready : Pool → Bool
is_ready p = (snapshot p).ready

module _ (os : Platform) where
  unfoldable pub dispatch_job : Config → Request → WebhookPayload → Broker → Broker × Status
  unfolding enqueue resolve_image has_label
  dispatch_job c r payload b =
      if not (has_label os c payload.workflow_job.labels)
      then (b, 204)
      else if not (is_some (resolve_image os c "" ""))
      then (b, 204)
      else let (pool, err) = enqueue r.context_done (job_of payload) b.pool in
        if is_some err then (record b { pool = pool }, 503) else (record b { pool = pool }, 202)

  unfoldable pub handle_pull_request_close : WebhookPayload → Broker → Broker × Status
  handle_pull_request_close payload b = elim payload.action [
    | closed ↦
        if str_eq payload.full_name "" || str_eq payload.head_sha ""
        then (b, 204)
        else if not b.can_cancel
        then (b, 204)
        else (record b { closures = (payload.full_name, payload.head_sha) ∷ b.closures }, 204)
    | _ ↦ (b, 204)
  ]

  -- The switch on the action of a workflow_job.
  unfoldable pub handle_workflow_job : Config → Request → WebhookPayload → Broker → Broker × Status
  unfolding dispatch_job mark_in_progress mark_completed is_hosted_macos_job cancel_job
  handle_workflow_job c r payload b = elim payload.action [
    | queued ↦ dispatch_job c r payload b
    | in_progress ↦ (
      if is_hosted_macos_job os.strings payload.workflow_job.labels c.labels
          then record b { tracker = mark_in_progress payload.workflow_job.id b.tracker }
          else b,
      204,
    )
    | completed ↦
        let done = record b { tracker = mark_completed payload.workflow_job.id b.tracker } in
        (
          if str_eq payload.workflow_job.conclusion "cancelled"
                || str_eq payload.workflow_job.conclusion "skipped"
              then record done { pool = cancel_job payload.workflow_job.id done.pool }
              else done,
          204,
        )
    | closed ↦ (b, 204)
    | other_action ↦ (b, 204)
  ]

  -- A delivery with a verified body.
  unfoldable pub deliver_body : Config → Request → List ℕ → Broker → Broker × Status
  unfolding handle_pull_request_close handle_workflow_job
  deliver_body c r body b = elim (os.unmarshal body) [
    | none ↦ (b, 400)
    | some payload ↦
        if str_eq (r.header "X-Github-Event") "pull_request"
        then handle_pull_request_close payload b
        else handle_workflow_job c r payload b
  ]

  unfoldable pub handle_webhook : ServerConfig → Request → Broker → Broker × Status
  unfolding deliver_body check_webhook_ip read_verified_body
  handle_webhook c r b =
      if not (str_eq r.method "POST")
      then (b, 405)
      else if not (check_webhook_ip os c r)
      then (b, 403)
      else let (body, refusal) = read_verified_body os c r in
        elim body [ none ↦ (b, refusal) | some bs ↦ deliver_body c.cfg r bs b ]

  -- The response, or the status of the refusal.
  unfoldable pub handle_capacity :
      ServerConfig → Request → Broker → Option CapacityResponse × Status
  unfolding resolve_image
  handle_capacity c r b =
      if not (str_eq r.method "GET")
      then (none, 405)
      else let limit = c.cfg.hosted_macos_concurrency_limit in
        let free = not (is_pos limit) || below (hosted_count b.tracker) limit in
        let refused : Option CapacityResponse × Status =
          (some (record { available = false; hosted_free = free }), 200) in
        elim (resolve_image os c.cfg (r.query "os") (r.query "xcode")) [
          | none ↦ refused
          | some tag ↦
              if not (str_eq tag c.cfg.base_image)
              then refused
              else (some (record { available = is_ready b.pool; hosted_free = free }), 200)
        ]

  -- The snapshot of handleStatus, or none with the status of the refusal.
  unfoldable pub handle_status : ServerConfig → Request → Broker → Option Snapshot × Status
  unfolding check_bearer_token snapshot
  handle_status c r b =
      if not (str_eq r.method "GET")
      then (none, 405)
      else if not (check_bearer_token os c r)
      then (none, 401)
      else (some (snapshot b.pool), 200)
