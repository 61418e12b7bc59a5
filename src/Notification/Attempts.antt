-- ===== src/Notification/Attempts.antt =====
-- How often `notify` posts, and what it raises.
use kafka_sqs.Base.{ℕ, suc, ◌+◌, ◌≤◌, ◌≡◌, ◌⊎◌, false, Option}
use kafka_sqs.Base.Effect.{Exc, Outcome, ok, raise, out_of_fuel}
use kafka_sqs.Contracts.Event.{OrderCreatedEvent}
use kafka_sqs.Notification.{HttpClient, OrderNotificationClient, downstream_error, is_http_error}

-- A world that also counts the posts.
pub record Counted {ℓ} (W : Type ℓ) : Type ℓ where
  pub world : W
  pub posts : ℕ

module _ {ℓ} {W : Type ℓ} where
  abbrev pub count_post : ℕ → Outcome W ℕ → Outcome (Counted W) ℕ
  count_post n (ok status w) = ok status (record { world = w; posts = suc n })
  count_post n (raise e w) = raise e (record { world = w; posts = suc n })
  count_post n out_of_fuel = out_of_fuel

  abbrev pub counted : HttpClient W → HttpClient (Counted W)
  counted http = record {
    post = λ request s. count_post s.posts (http.post request s.world);
    raise_for_status = http.raise_for_status;
  }

  -- `limit` posts at most. A return has made one at least, and a raise is the client's own error,
  -- which is no HTTPError, or the final error after exactly `limit` posts.
  abbrev pub Bounded :
      OrderNotificationClient → OrderCreatedEvent → ℕ → ℕ → Outcome (Counted W) (Unit {0}) → Type 0
  Bounded self event before limit (ok u s) = (suc before ≤ s.posts) × (s.posts ≤ before + limit)
  Bounded self event before limit (raise e s) =
      (s.posts ≤ before + limit)
      × ((is_http_error e ≡ false)
          ⊎ ((s.posts ≡ before + limit)
              × ((last : Option Exc) × (e ≡ downstream_error self event last))))
  Bounded self event before limit out_of_fuel = Unit

module _ {ℓ} {W : Type ℓ} (self : OrderNotificationClient) (event : OrderCreatedEvent) where
  -- One post, and a return or a raise.
  abbrev OnePost : ℕ → Outcome (Counted W) (Unit {0}) → Type 0
  OnePost before (ok u s) = s.posts ≡ suc before
  OnePost before (raise e s) = s.posts ≡ suc before
  OnePost before out_of_fuel = Unit
