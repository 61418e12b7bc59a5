-- ===== src/Notification.antt =====
-- order_processing/notification_client.py: bounded HTTP attempts. httpx2 is a parameter.
pub mod Attempts
mod Examples
use Prim.Native.Char.{code}
use Prim.Native.String.{[] as text_nil, ◌∷◌ as text_cons}
use kafka_sqs.Base.{
  ℕ, zero, suc, String, ◌<>◌, Bool, Option, none, some, List, [], ◌∷◌, ◌==◌, if◌then◌else◌,
}
use kafka_sqs.Base.Int.{ℤ, pos, leb_ℤ, pos_part}
use kafka_sqs.Base.Text.{is_empty, str_int, str_uuid}
use kafka_sqs.Base.Effect.{
  Exc, is_instance, Reply, value, error, Eff, pure, throw, lift, try_except, ◌>>=◌, value_error,
}
use kafka_sqs.Contracts.Event.{OrderCreatedEvent}
use kafka_sqs.Contracts.Json.{Json, number, text, object, end, field}

pub record HttpRequest : Type 0 where
  pub url : String
  pub headers : List (String × String)
  pub json : Json
  pub timeout : ℤ

-- httpx2.post, and response.raise_for_status(), over the status of the response.
pub record HttpClient {ℓ} (W : Type ℓ) : Type ℓ where
  pub post : HttpRequest → Eff W ℕ
  pub raise_for_status : ℕ → Reply (Unit {0})

pub record OrderNotificationClient : Type 0 where
  pub base_url : String
  pub timeout_seconds : ℤ
  pub max_attempts : ℤ

-- base_url.rstrip("/")
strip_slashes : String → String
strip_slashes text_nil = text_nil
strip_slashes (text_cons c s) =
    let rest = strip_slashes s in
    if is_empty rest
    then (if code c == 47 then text_nil else text_cons c text_nil)
    else text_cons c rest

-- __init__
unfoldable pub make_notification_client : String → ℤ → ℤ → Reply OrderNotificationClient
unfolding strip_slashes
make_notification_client base_url timeout_seconds max_attempts =
    if leb_ℤ timeout_seconds (pos 0)
    then error (value_error "timeout_seconds must be greater than zero.")
    else if leb_ℤ max_attempts (pos 0)
    then error (value_error "max_attempts must be greater than zero.")
    else value (record {
      base_url = strip_slashes base_url;
      timeout_seconds = timeout_seconds;
      max_attempts = max_attempts;
    })

abbrev pub request_for : OrderNotificationClient → OrderCreatedEvent → HttpRequest
request_for self event = record {
  url = self.base_url <> "/order-created";
  headers =
      ("Content-Type", "application/json")
      ∷ ("X-Correlation-ID", event.correlation_id)
      ∷ ("X-Event-ID", str_uuid event.event_id)
      ∷ [];
  json = object (
      field "order_id" (text event.payload.order_id) (
        field "customer_id" (text event.payload.customer_id) (
          field "amount" (number event.payload.amount)
            (field "currency" (text event.payload.currency) end))));
  timeout = self.timeout_seconds;
}

-- str(last_error)
abbrev last_text : Option Exc → String
last_text none = "None"
last_text (some e) = e.text

abbrev pub downstream_error : OrderNotificationClient → OrderCreatedEvent → Option Exc → Exc
downstream_error self event last_error = record {
  classes = "DownstreamNotificationError" ∷ "RuntimeError" ∷ "Exception" ∷ [];
  text =
      "Downstream order notification failed after "
      <> (str_int (pos_part self.max_attempts)
          <> (" attempt(s) for event "
              <> (str_uuid event.event_id <> (": " <> last_text last_error))));
}

abbrev pub is_http_error : Exc → Bool
is_http_error e = is_instance e ("HTTPError" ∷ [])

module _ {ℓ} {W : Type ℓ} (http : HttpClient W) (self : OrderNotificationClient) where
  abbrev pub send_once : OrderCreatedEvent → Eff W (Unit {0})
  send_once event = do
    status ← http.post (request_for self event)
    lift (http.raise_for_status status)

  -- The rounds that are left of `for _ in range(self.max_attempts)`.
  unfoldable pub notify_rounds : OrderCreatedEvent → ℕ → Option Exc → Eff W (Unit {0})
  notify_rounds event zero last_error = throw (downstream_error self event last_error)
  notify_rounds event (suc rounds) last_error =
      try_except (send_once event)
        (λ e. if is_http_error e then notify_rounds event rounds (some e) else throw e)
        (λ _. pure tt)

  unfoldable pub notify : OrderCreatedEvent → Eff W (Unit {0})
  unfolding notify_rounds
  notify event = notify_rounds event (pos_part self.max_attempts) none
