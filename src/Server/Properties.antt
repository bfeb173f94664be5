-- ===== src/Server/Properties.antt =====
-- What the handlers of internal/server/server.go promise.
use gha_mac_broker.Prelude.{
  ℕ, ◌≡◌, ◌≤◌, inl, inr, refl, Bool, true, false, not, ◌&&◌, List, [], ◌∷◌, ◌++◌, none, some,
  str_eq, eq_iff, All, arith, if_cases, option_cases, Option-cases,
}
use gha_mac_broker.RunnerPool.Types.{Job}
use gha_mac_broker.RunnerPool.System.{Section, enqueues, run, taken}
use gha_mac_broker.RunnerPool.Capacity.Drain.{OnlyDispatches, ready-serves}
use gha_mac_broker.Server.Types.{ServerConfig, Request, Platform, Broker, Status}
use gha_mac_broker.Server.Images.{resolve_image}
use gha_mac_broker.Server.Guards.{
  max_body_bytes, limited, verify_signature, check_webhook_ip, read_verified_body,
}
use gha_mac_broker.Server.Handlers.{is_ready, handle_webhook, handle_capacity}

module _ (os : Platform) where
  abbrev is_signed : ServerConfig → Request → Bool
  is_signed c r = elim r.body [
    | none ↦ false
    | some sent ↦
        verify_signature os c.webhook_key (limited max_body_bytes sent)
          (r.header "X-Hub-Signature-256")
  ]

  -- A POST from an allowed address with a body that carries a right signature under the key.
  abbrev pub is_authentic : ServerConfig → Request → Bool
  is_authentic c r = str_eq r.method "POST" && check_webhook_ip os c r && is_signed c r

  read_refused :
      (c : ServerConfig) (r : Request)
      → is_signed c r ≡ false
      → ((read_verified_body os c r).0 ≡ none)
        × (400 ≤ (read_verified_body os c r).1)
        × ((read_verified_body os c r).1 ≤ 405)
  unfolding read_verified_body
  read_refused c r h = ground (arith, h)

  -- A request that is no POST, or does not come from an allowed address, or whose body cannot be read
  -- or carries no right signature changes nothing in the broker and is refused with a status from 400 to
  -- 405.
  pub handle_webhook-guarded :
      (c : ServerConfig) (r : Request) (b : Broker)
      → is_authentic c r ≡ false
      → ((handle_webhook os c r b).0 ≡ b)
        × (400 ≤ (handle_webhook os c r b).1)
        × ((handle_webhook os c r b).1 ≤ 405)
  unfolding handle_webhook read_verified_body
  handle_webhook-guarded c r b h =
      if_cases Refused (not (str_eq r.method "POST")) (λ _. (refl, omega arith, omega arith))
        λ post.
          if_cases Refused (not (check_webhook_ip os c r)) (λ _. (refl, omega arith, omega arith))
            λ ip.
              option_cases Refused (read_verified_body os c r).0
                (λ _.
                  let refusal = read_refused c r (ground (arith, h, post, ip)) in
                  (refl, refusal.1, refusal.2))
                λ bs read.
                  absurd (ground (arith, read, (read_refused c r (ground (arith, h, post, ip))).0))
    where
      Refused : Broker × Status → Type 0
      Refused a = (a.0 ≡ b) × (400 ≤ a.1) × (a.1 ≤ 405)

  answered :
      (c : ServerConfig) (r : Request) (b : Broker) (free : Bool) (status : ℕ)
      → handle_capacity os c r b ≡ (some (record { available = true; hosted_free = free }), status)
      → (resolve_image os c.cfg (r.query "os") (r.query "xcode") ≡ some c.cfg.base_image)
        × (is_ready b.pool ≡ true)
  unfolding handle_capacity
  answered c r b free status h =
      elim (Option-cases (resolve_image os c.cfg (r.query "os") (r.query "xcode"))) [
        | inl e ↦ absurd (ground (arith, h, e))
        | inr (tag, e) ↦ ground (arith, h, e, eq_iff tag c.cfg.base_image)
      ]

  -- If /capacity answers that the pool is available, the requested image resolves to the pool's base
  -- image; and a job that arrives next is accepted and handed out, after all jobs that are queued, by
  -- critical sections that only dispatch, with no running job ending in between.
  pub handle_capacity-serves :
      (c : ServerConfig) (r : Request) (b : Broker) (free : Bool) (status now : ℕ) (job : Job)
      → handle_capacity os c r b ≡ (some (record { available = true; hosted_free = free }), status)
      → (resolve_image os c.cfg (r.query "os") (r.query "xcode") ≡ some c.cfg.base_image)
        × ((ss : List (ℕ × Section)) × (All OnlyDispatches ss)
            × (taken ((now, enqueues false job) ∷ ss) b.pool ≡ b.pool.queue ++ job ∷ [])
            × ((run ((now, enqueues false job) ∷ ss) b.pool).queue ≡ []))
  handle_capacity-serves c r b free status now job h =
      let facts = answered c r b free status h in (facts.0, ready-serves now b.pool job facts.1)
