-- ===== src/Tests/Hooks.antt =====
-- The worker that posts the events of pushes.
use distribd.Prelude.{
  ℕ, zero, suc, String, Option, none, some, List, [], ◌∷◌, Bool, ◌==◌, string_eq, str_dec, ◌≡◌,
  refl,
}
use distribd.Prelude.Map
use distribd.Config.{WebhookConfig}
use distribd.Webhook.{Event, fresh_worker, match_target, count, notify, run_worker}
use distribd.Webhook.Deliveries.{Delivers, all_posts, run_worker-Delivers}
use distribd.Tests.{layer, library}

abbrev push : Event
push = record { repository = library; digest = layer; content_type = "kind"; tag = "latest" }

abbrev hooks : List (WebhookConfig String)
hooks =
    record { url = "http://one"; matcher = match_target push }
    ∷ record { url = "http://two"; matcher = "other" }
    ∷ record { url = "http://three"; matcher = match_target push }
    ∷ []

abbrev matches : String → String → Bool
matches matcher text = matcher == text

abbrev status_line : ℕ → String
status_line status = "200 OK"

-- only the first request is answered
abbrev answered : ℕ → Option ℕ
answered zero = some 200
answered (suc k) = none

run_worker-Delivers_example :
    Delivers matches status_line answered
      (all_posts matches status_line answered hooks (push ∷ push ∷ []))
      fresh_worker
      (run_worker matches status_line answered hooks (push ∷ push ∷ []) fresh_worker)
run_worker-Delivers_example =
    run_worker-Delivers matches status_line answered hooks (push ∷ push ∷ []) fresh_worker

counted :
    (run_worker matches status_line answered hooks (push ∷ push ∷ []) fresh_worker).webhooks_total
    ≡ ("200 OK", 1) ∷ ("000", 3) ∷ []
unfolding run_worker notify count Map.insert Map.lookup str_dec
counted = refl
