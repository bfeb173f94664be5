-- ===== src/Server/Types.antt =====
-- The data of internal/server/server.go, and what it takes from the standard library.
use gha_mac_broker.Prelude.{ℕ, String, Bool, List, Option, ℤ}
use gha_mac_broker.RunnerPool.Types.{Pool}
use gha_mac_broker.HostedLoad.{Tracker, Strings}

-- "queued", "in_progress", "completed", "closed", and any other text.
pub data WebhookAction : Type 0 where
  queued in_progress completed closed other_action : WebhookAction

pub record WebhookJob : Type 0 where
  pub id : ℤ
  pub labels : List String
  pub run_id : ℤ
  pub conclusion : String

pub record WebhookPayload : Type 0 where
  pub action : WebhookAction
  pub full_name : String
  pub workflow_job : WebhookJob
  pub head_sha : String

pub record Image : Type 0 where
  pub macos : String
  pub xcode : String
  pub tag : String

-- What the handlers read of config.Config.
pub record Config : Type 0 where
  pub labels : List String
  pub base_image : String
  pub images : List Image
  pub hosted_macos_concurrency_limit : ℤ

-- An address is its bytes; a CIDR is its address and mask.
abbrev pub Cidr : Type 0
Cidr = List ℕ × List ℕ

pub record ServerConfig : Type 0 where
  pub webhook_key : List ℕ
  pub capacity_token : List ℕ
  pub webhook_cidrs : List Cidr
  pub cfg : Config

-- A request. `body` is none if it cannot be read; `context_done` says whether the context has ended.
pub record Request : Type 0 where
  pub method : String
  pub header : String → String
  pub query : String → String
  pub remote_addr : String
  pub body : Option (List ℕ)
  pub context_done : Bool

-- The functions of net, encoding, crypto and strings that the handlers call. `after` cuts so many
-- bytes from the front, `bytes_of` is the conversion to bytes, `split_host` is none on an error.
pub record Platform : Type 0 where
  pub strings : Strings
  pub trim_space : String → String
  pub cut : String → String → Option (String × String)
  pub contains_any : String → String → Bool
  pub has_suffix : String → String → Bool
  pub trim_prefix : String → String → String
  pub trim_suffix : String → String → String
  pub byte_length : String → ℕ
  pub first_bytes : ℕ → String → String
  pub after : ℕ → String → String
  pub bytes_of : String → List ℕ
  pub hex_decode : String → Option (List ℕ)
  pub hmac_sha256 : List ℕ → List ℕ → List ℕ
  pub parse_ip : String → Option (List ℕ)
  pub cidr_contains : Cidr → List ℕ → Bool
  pub split_host : String → Option String
  pub unmarshal : List ℕ → Option WebhookPayload

-- The pool, the tracker, and the pull requests whose runs a goroutine was started to cancel, newest
-- first. `can_cancel` says whether a run canceller is wired.
pub record Broker : Type 0 where
  pub pool : Pool
  pub tracker : Tracker
  pub can_cancel : Bool
  pub closures : List (String × String)

-- A status code.
abbrev pub Status : Type 0
Status = ℕ

pub record CapacityResponse : Type 0 where
  pub available : Bool
  pub hosted_free : Bool
