-- ===== src/Webhook.antt =====
-- src/webhook.rs: the worker that posts the events of pushes. `regex` and `reqwest` are parameters:
-- whether a matcher matches, and the status with which the k-th request is answered, if it is. The
-- payload is the event, and a status is written as its text.
pub mod Deliveries
use Prim.Native.String
use distribd.Prelude.{
  ℕ, suc, ◌+◌, String, Option, none, some, List, [], ◌∷◌, ◌++◌, if◌then◌else◌, Bool, string_eq,
}
use distribd.Prelude.Map
use distribd.Prelude.Map.{Map}
use distribd.Types.{Digest, RepositoryName}
use distribd.Config.{WebhookConfig}

pub record Event : Type 0 where
  pub repository : RepositoryName
  pub digest : Digest
  pub content_type : String
  pub tag : String

pub record Post : Type 0 where
  pub url : String
  pub payload : Event

-- the requests that were sent, and the counters of `webhooks_total` by their label
pub record Worker : Type 0 where
  pub posts : List Post
  pub sent : ℕ
  pub webhooks_total : Map String ℕ

abbrev pub fresh_worker : Worker
fresh_worker = record { posts = []; sent = 0; webhooks_total = [] }

abbrev pub total : Option ℕ → ℕ
total none = 0
total (some n) = n

-- `get_or_create(&labels).inc()`
unfoldable pub count : String → Map String ℕ → Map String ℕ
count status totals = Map.insert status (total (Map.lookup status totals) + 1) totals

-- `{repository}:{tag}`
abbrev pub match_target : Event → String
match_target event = String.◌++◌ event.repository.name (String.◌++◌ ":" event.tag)

module _ {Regex : Type 0} (is_match : Regex → String → Bool) (status_text : ℕ → String)
    (respond : ℕ → Option ℕ) where
  abbrev pub label : Option ℕ → String
  label none = "000"
  label (some status) = status_text status

  abbrev pub deliver : String → Event → Worker → Worker
  deliver url event w = record {
    posts = w.posts ++ (record { url = url; payload = event } ∷ []);
    sent = suc w.sent;
    webhooks_total = count (label (respond w.sent)) w.webhooks_total;
  }

  -- the `for` loop over the hooks
  unfoldable pub notify : List (WebhookConfig Regex) → Event → Worker → Worker
  unfolding count
  notify [] event w = w
  notify (hook ∷ hooks) event w =
      notify hooks event
        (if is_match hook.matcher (match_target event) then deliver hook.url event w else w)

  -- the worker, over the events that come through the channel until it is closed
  unfoldable pub run_worker : List (WebhookConfig Regex) → List Event → Worker → Worker
  unfolding notify
  run_worker webhooks [] w = w
  run_worker webhooks (event ∷ events) w = run_worker webhooks events (notify webhooks event w)
