-- ===== src/Notification/Examples.antt =====
-- A service that answers 503 and then 200.
use kafka_sqs.Base.{ℕ, suc, ◌==◌, ◌≡◌, refl, [], ◌∷◌, if◌then◌else◌}
use kafka_sqs.Base.Int.{pos}
use kafka_sqs.Base.Effect.{Exc, value, error, ok, is_instance}
use kafka_sqs.Samples.{order}
use kafka_sqs.Notification.{HttpClient, OrderNotificationClient, make_notification_client, notify}
use kafka_sqs.Notification.Attempts.{counted}

abbrev http_error : Exc
http_error = record { classes = "HTTPStatusError" ∷ "HTTPError" ∷ "Exception" ∷ []; text = "503" }

abbrev flaky : HttpClient ℕ
flaky = record {
  post = λ request n. ok (if n == 0 then 503 else 200) (suc n);
  raise_for_status = λ status. if status == 200 then value tt else error http_error;
}

abbrev client : OrderNotificationClient
client = record {
  base_url = "http://localhost:9000";
  timeout_seconds = pos 2000000;
  max_attempts = pos 3;
}

second_attempt :
    notify (counted flaky) client order (record { world = 0; posts = 0 })
    ≡ ok tt (record { world = 2; posts = 2 })
unfolding notify is_instance
second_attempt = refl

base_url_is_stripped :
    make_notification_client "http://localhost:9000//" (pos 2000000) (pos 3) ≡ value client
unfolding make_notification_client
base_url_is_stripped = refl
