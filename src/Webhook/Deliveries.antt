-- ===== src/Webhook/Deliveries.antt =====
-- What the worker sends, and what it counts.
use mathlib.Core.List.{append_assoc, append-nil}
use distribd.Prelude.{
  ℕ, zero, suc, ◌+◌, String, Option, List, [], ◌∷◌, ◌++◌, if◌then◌else◌, Bool, string_eq, ◌==◌,
  length, length-append, ◌≡◌, refl, sym, ap, ◌∙◌, arith, inl, inr, Bool-cases, ==_eq,
}
use distribd.Prelude.Map
use distribd.Prelude.Map.{Map, lookup-insert}
use distribd.Config.{WebhookConfig}
use distribd.Webhook.{
  Event, Post, Worker, total, count, match_target, label, deliver, notify, run_worker,
}

module _ {Regex : Type 0} (is_match : Regex → String → Bool) (status_text : ℕ → String)
    (respond : ℕ → Option ℕ) where
  -- one post to each hook that matches, in the order of the configuration
  abbrev pub posts_for : List (WebhookConfig Regex) → Event → List Post
  posts_for [] event = []
  posts_for (hook ∷ hooks) event =
      if is_match hook.matcher (match_target event)
      then record { url = hook.url; payload = event } ∷ posts_for hooks event
      else posts_for hooks event

  abbrev pub all_posts : List (WebhookConfig Regex) → List Event → List Post
  all_posts webhooks [] = []
  all_posts webhooks (event ∷ events) = posts_for webhooks event ++ all_posts webhooks events

  -- how many of the `n` answers from the k-th on have the label
  abbrev pub answers_with : String → ℕ → ℕ → ℕ
  answers_with text k zero = 0
  answers_with text k (suc n) =
      (if label is_match status_text respond (respond k) == text then 1 else 0)
      + answers_with text (suc k) n

  -- What a worker has done since it was `w`: the posts, and one more in the counter of each answer.
  pub record Delivers (posts : List Post) (w w' : Worker) : Type 0 where
    pub sent : w'.posts ≡ w.posts ++ posts
    pub number : w'.sent ≡ w.sent + length posts
    pub counted :
        (text : String)
        → total (Map.lookup text w'.webhooks_total)
          ≡ total (Map.lookup text w.webhooks_total) + answers_with text w.sent (length posts)

  nothing-Delivers : (w : Worker) → Delivers [] w w
  nothing-Delivers w = record {
    sent = sym (append-nil w.posts);
    number = omega arith;
    counted = λ text. omega arith;
  }

  answers_append :
      (text : String) (k m n : ℕ)
      → answers_with text k (m + n) ≡ answers_with text k m + answers_with text (k + m) n
  answers_append text k zero n =
      let left : 0 + n ≡ n = omega arith in
      let right : k + 0 ≡ k = omega arith in rw (left, right) (omega arith)
  answers_append text k (suc m) n =
      let left : suc m + n ≡ suc (m + n) = omega arith in
      let right : k + suc m ≡ suc k + m = omega arith in
      rw (left, right) (omega (arith, answers_append text (suc k) m n))

  and_then-Delivers :
      (ps qs : List Post) (w w₁ w₂ : Worker)
      → Delivers ps w w₁
      → Delivers qs w₁ w₂
      → Delivers (ps ++ qs) w w₂
  and_then-Delivers ps qs w w₁ w₂ first second = record {
    sent = second.sent ∙ ap (λ x. x ++ qs) first.sent ∙ append_assoc w.posts ps qs;
    number = omega (arith, first.number, second.number, length-append ps qs);
    counted = λ text. grind (
      arith,
      first.counted text,
      second.counted text,
      answers_append text w.sent (length ps) (length qs),
      first.number,
      length-append ps qs,
      ap (λ k. answers_with text k (length qs)) first.number,
      ap (λ n. answers_with text w.sent n) (length-append ps qs),
    );
  }

  counted_once :
      (status text : String) (totals : Map String ℕ)
      → total (Map.lookup text (count status totals))
        ≡ total (Map.lookup text totals) + (if status == text then 1 else 0)
  unfolding count
  counted_once status text totals = elim (Bool-cases (status == text)) [
    | inl same ↦ ground (
      arith,
      lookup-insert status text (total (Map.lookup status totals) + 1) totals,
      same,
      ap (λ x. Map.lookup x totals) (==_eq status text same),
    )
    | inr differ ↦
        ground
          (arith, lookup-insert status text (total (Map.lookup status totals) + 1) totals, differ)
  ]

  deliver-Delivers :
      (url : String) (event : Event) (w : Worker)
      → Delivers
          (record { url = url; payload = event } ∷ [])
          w
          (deliver is_match status_text respond url event w)
  deliver-Delivers url event w = record {
    sent = refl;
    number = omega arith;
    counted = λ text. omega (
      arith,
      counted_once (label is_match status_text respond (respond w.sent)) text w.webhooks_total,
    );
  }

  notify-Delivers :
      (webhooks : List (WebhookConfig Regex)) (event : Event) (w : Worker)
      → Delivers (posts_for webhooks event) w (notify is_match status_text respond webhooks event w)
  unfolding notify
  notify-Delivers [] event w = nothing-Delivers w
  notify-Delivers (hook ∷ hooks) event w =
      elim (Bool-cases (is_match hook.matcher (match_target event))) [
        | inl matched ↦ rw matched (
            and_then-Delivers _ (posts_for hooks event) w _ _ (deliver-Delivers hook.url event w)
              (notify-Delivers hooks event _))
        | inr other ↦ rw other (notify-Delivers hooks event w)
      ]

  -- The worker posts each event to every hook whose matcher matches its repository and tag, event by
  -- event and in the order of the configuration, and to no other hook. For each status, and for "000"
  -- where a request has no answer, the counter has grown by the number of the posts that got it.
  pub run_worker-Delivers :
      (webhooks : List (WebhookConfig Regex)) (events : List Event) (w : Worker)
      → Delivers
          (all_posts webhooks events)
          w
          (run_worker is_match status_text respond webhooks events w)
  unfolding run_worker
  run_worker-Delivers webhooks [] w = nothing-Delivers w
  run_worker-Delivers webhooks (event ∷ events) w =
      and_then-Delivers (posts_for webhooks event) (all_posts webhooks events) w _ _
        (notify-Delivers webhooks event w) (run_worker-Delivers webhooks events _)
