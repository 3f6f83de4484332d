-- ===== src/Tests/Delivery.antt =====
-- Webhooks: the theorems on backend/app/services/webhook_service.py and the URL policy, applied.
use ghostbill.Prelude.{
  ℕ, String, ◌⊎◌, ◌≡◌, refl, ◌≤◌, ◌+◌, inl, none, some, [], ◌∷◌, All, false, true, arith,
}
use ghostbill.Model.{WebhookDelivery, WebhookDeadLetter, WebhookStatus, seconds}
use ghostbill.Tor.{validate_webhook_url, check_parsed, check_host, ParsedUrl, IpAddress}
use ghostbill.Tor.Policy.{validate_webhook_url_policy, IsInternal}
use ghostbill.Webhook.{calculate_next_retry}
use ghostbill.Webhook.Delivery.{http_error, process_delivery_result}
use ghostbill.Webhook.Worker.{worker_cycle}
use ghostbill.Webhook.Worker.Cycle.{worker_cycle-IsScheduled}
use ghostbill.Webhook.Schedule.{IsScheduled, calculate_next_retry_total}
use ghostbill.Webhook.Deliveries.{process_delivery_result_lem, replaced, IsLetter}
use ghostbill.Tests.{clear_net, attempt, tables}

attempt-IsScheduled : IsScheduled attempt
attempt-IsScheduled = (refl, inl (refl, omega arith, λ missing. cc))

calculate_next_retry_total_example :
    (t : ℕ) × (calculate_next_retry 100 6 ≡ some t) × (100 + seconds 60 ≤ t)
calculate_next_retry_total_example = calculate_next_retry_total 100 6 (omega arith)

-- The seventh attempt.
abbrev last_attempt : WebhookDelivery
last_attempt = record attempt { attempts = 6 }

process_delivery_result_lem_example :
    let out = process_delivery_result 100 last_attempt false tables in
    let tried = record last_attempt { attempts = 7; last_attempt_at = some 100 } in
    ((letter : WebhookDeadLetter) × IsLetter 5 tried letter × (out.1.dead_letters ≡ letter ∷ []))
    × (out.1.deliveries
        ≡ replaced tables last_attempt
            (record tried { status = WebhookStatus.dead_lettered; next_retry_at = none }))
process_delivery_result_lem_example =
    (process_delivery_result_lem 100 last_attempt false tables refl).3 refl (omega arith)

accepted : validate_webhook_url clear_net "https://shop.example/hook" ≡ none
unfolding validate_webhook_url check_parsed check_host
accepted = refl

validate_webhook_url_policy_example :
    (parsed : ParsedUrl) × (host : String) × (clear_net.urlparse "https://shop.example/hook"
      ≡ some parsed)
    × ((parsed.scheme ≡ "http") ⊎ (parsed.scheme ≡ "https"))
    × (parsed.username ≡ none)
    × (parsed.password ≡ none)
    × (parsed.hostname ≡ some host)
    × (clear_net.tor_only ≡ true → clear_net.is_onion host ≡ true)
    × (clear_net.is_onion host ≡ false
        → (a : IpAddress) → clear_net.ip_address host ≡ some a
        → ¬ IsInternal a)
validate_webhook_url_policy_example =
    validate_webhook_url_policy clear_net "https://shop.example/hook" accepted

worker_cycle-IsScheduled_example :
    All IsScheduled (worker_cycle 100 (λ d. http_error "timeout") tables).1.deliveries
worker_cycle-IsScheduled_example =
    worker_cycle-IsScheduled 100 (λ d. http_error "timeout") tables (attempt-IsScheduled, tt)
