-- ===== src/Server/Guards.antt =====
-- The checks of internal/server/server.go that come before a handler acts.
use gha_mac_broker.Prelude.{
  ℕ, String, Bool, true, false, not, ◌&&◌, ◌||◌, List, [], ◌∷◌, Option, none, some, length, str_eq,
  ltb, ◌==◌, zero, suc, if◌then◌else◌,
}
use gha_mac_broker.Server.Types.{Cidr, ServerConfig, Request, Platform}

abbrev pub same_bytes : List ℕ → List ℕ → Bool
same_bytes [] [] = true
same_bytes [] (y ∷ ys) = false
same_bytes (x ∷ xs) [] = false
same_bytes (x ∷ xs) (y ∷ ys) = (x == y) && same_bytes xs ys

-- The first bytes that io.LimitReader lets through.
abbrev pub limited : ℕ → List ℕ → List ℕ
limited zero xs = []
limited (suc n) [] = []
limited (suc n) (x ∷ xs) = x ∷ limited n xs

-- 1 MiB.
abbrev pub max_body_bytes : ℕ
max_body_bytes = 1048576

module _ (os : Platform) where
  unfoldable pub webhook_client_ip : Request → String
  webhook_client_ip r =
      let cf = r.header "Cf-Connecting-Ip" in
      let real = r.header "True-Client-Ip" in
      if not (str_eq cf "")
      then cf
      else if not (str_eq real "")
      then real
      else elim (os.split_host r.remote_addr) [ none ↦ r.remote_addr | some host ↦ host ]

  abbrev pub any_contains : List ℕ → List Cidr → Bool
  any_contains ip [] = false
  any_contains ip (cidr ∷ rest) =
      let later = any_contains ip rest in if os.cidr_contains cidr ip then true else later

  unfoldable pub check_webhook_ip : ServerConfig → Request → Bool
  unfolding webhook_client_ip
  check_webhook_ip c r =
      if length c.webhook_cidrs == 0 then true else elim (os.parse_ip (webhook_client_ip r)) [
        | none ↦ false
        | some ip ↦ any_contains ip c.webhook_cidrs
      ]

  unfoldable pub verify_signature : List ℕ → List ℕ → String → Bool
  verify_signature secret body sig_header =
      if not (os.strings.has_prefix sig_header "sha256=")
      then false
      else elim (os.hex_decode (os.after 7 sig_header)) [
        | none ↦ false
        | some sig ↦ same_bytes (os.hmac_sha256 secret body) sig
      ]

  -- The body, or the status of the refusal.
  unfoldable pub read_verified_body : ServerConfig → Request → Option (List ℕ) × ℕ
  unfolding verify_signature
  read_verified_body c r = elim r.body [
    | none ↦ (none, 400)
    | some sent ↦
        let body = limited max_body_bytes sent in
        if verify_signature c.webhook_key body (r.header "X-Hub-Signature-256")
        then (some body, 200)
        else (none, 401)
  ]

  unfoldable pub check_bearer_token : ServerConfig → Request → Bool
  check_bearer_token c r =
      let auth = r.header "Authorization" in
      if length c.capacity_token == 0
      then false
      else if ltb (os.byte_length auth) 7
          || not (os.strings.equal_fold (os.first_bytes 7 auth) "Bearer ")
      then false
      else if same_bytes (os.bytes_of (os.after 7 auth)) c.capacity_token
      then true
      else false
