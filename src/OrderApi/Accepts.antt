-- ===== src/OrderApi/Accepts.antt =====
-- What an answer of POST /orders says.
use kafka_sqs.Base.{
  String, ◌≡◌, refl, ◌⊎◌, inl, inr, Bool, true, false, Option, none, some, if◌then◌else◌,
}
use mathlib.Core.Path.{subst, sym, ap}
use kafka_sqs.Base.Text.{is_empty}
use kafka_sqs.Base.Effect.{
  Exc, Reply, value, Outcome, ok, raise, out_of_fuel, Eff, pure, throw, lift, attempt,
  continue-eq-ok, lift-eq-ok,
}
use kafka_sqs.Contracts.Event.{OrderCreatedData, OrderCreatedEvent}
use kafka_sqs.Contracts.Factory.{
  or_text, prefixed_uuid, ensure_utc_datetime, event_with, make_order_created_event,
}
use kafka_sqs.Clients.{Runtime}
use kafka_sqs.OrderApi.{
  CreateOrderRequest, Answer, accepted, refused, OrderApp, is_publish_error, data_of, accepted_for,
  publish_and_answer, create_order,
}

-- A header that is given and not empty is the correlation ID.
abbrev pub Echoes : Option String → String → Type 0
Echoes none c = Unit
Echoes (some header) c = (is_empty header ≡ true) ⊎ (c ≡ header)

module _ {W : Type 0} where
  or_text_nonempty :
      (c c' : String) (other : Eff W String) (w w' : W)
      → is_empty c ≡ false
      → or_text (some c) other w ≡ ok c' w'
      → c' ≡ c
  or_text_nonempty c c' other w w' full h = split (is_empty c) full h
    where
      split : (b : Bool) → b ≡ false → (if b then other else pure c) w ≡ ok c' w' → c' ≡ c
      split true e g = absurd (cc)
      split false e g = cc

  pub or_text-Echoes :
      (header : Option String) (fresh : Eff W String) (c : String) (w w' : W)
      → ((v v' : W) (s : String) → fresh v ≡ ok s v' → is_empty s ≡ false)
      → or_text header fresh w ≡ ok c w'
      → Echoes header c × (is_empty c ≡ false)
  or_text-Echoes none fresh c w w' full h = (tt, full w w' c h)
  or_text-Echoes (some s) fresh c w w' full h = split (is_empty s) refl h
    where
      split :
          (b : Bool)
          → is_empty s ≡ b
          → (if b then fresh else pure s) w ≡ ok c w'
          → Echoes (some s) c × (is_empty c ≡ false)
      split true e g = (inl e, full w w' c g)
      split false e g =
          let same : s ≡ c = cc (g) in (inr (sym same), subst (λ x. is_empty x ≡ false) same e)

module _ {W : Type 0} (run : Runtime W) (check : OrderCreatedEvent → Reply (Unit {0})) where
  -- The event has the payload and the correlation ID that it was made with, and was checked.
  pub make_order_ok :
      (payload : OrderCreatedData) (c causation : String) (event : OrderCreatedEvent) (w w' : W)
      → is_empty c ≡ false
      → make_order_created_event run check payload none (some c) (some causation) none w
        ≡ ok event w'
      → (event.correlation_id ≡ c) × (event.payload ≡ payload) × (check event ≡ value tt)
  unfolding make_order_created_event
  make_order_ok payload c causation event w w' full h =
      let (now, w1) = run.utc_now w in
      let (time, w2, _, h2) = continue-eq-ok (lift (ensure_utc_datetime now) w1) _ h in
      let (id, w3) = run.uuid4 w2 in
      let (c', w4, correlated, h4) =
        continue-eq-ok (or_text (some c) (prefixed_uuid run "checkout-") w3) _ h2 in
      let (cause, w5, _, h5) =
        continue-eq-ok (or_text (some causation) (prefixed_uuid run "request-") w4) _ h4 in
      let made = event_with run check id time c' cause payload in
      let (u, w6, checked, h6) = continue-eq-ok (lift (check made) w5) _ h5 in
      let (checks, _) = lift-eq-ok (check made) checked in
      let same : made ≡ event = cc (h6) in
      subst (λ e. (e.correlation_id ≡ c) × (e.payload ≡ payload) × (check e ≡ value tt)) same
        (or_text_nonempty c c' (prefixed_uuid run "checkout-") w3 w4 full correlated, refl, checks)

module _ {W R : Type 0} (run : Runtime W) (check : OrderCreatedEvent → Reply (Unit {0}))
    (app : OrderApp W R) where
  -- 202 follows an acknowledged publication, as the last call, of a checked event that carries the
  -- request and the identities of the answer; any other answer is 503, and follows a publication
  -- that raised EventPublishError.
  abbrev pub Answers : CreateOrderRequest → Option String → Answer → W → Type 0
  Answers order header (accepted c body) w' =
      (event : OrderCreatedEvent) × (receipt : R) × (before : W) × (app.publisher app.topic event
          before
        ≡ ok receipt w')
      × (check event ≡ value tt)
      × (event.payload ≡ data_of run check app body.order_id order)
      × (body.event_id ≡ event.event_id)
      × (body.correlation_id ≡ event.correlation_id)
      × (c ≡ event.correlation_id)
      × Echoes header c
  Answers order header (refused status detail) w' =
      (status ≡ 503)
      × ((event : OrderCreatedEvent) × (e : Exc) × (before : W) × (app.publisher app.topic event
              before
            ≡ raise e w')
          × (is_publish_error e ≡ true))

  publish_Answers :
      (order : CreateOrderRequest) (header : Option String) (c order_id : String)
      (event : OrderCreatedEvent) (a : Answer) (w w' : W)
      → Echoes header c
      → event.correlation_id ≡ c
      → event.payload ≡ data_of run check app order_id order
      → check event ≡ value tt
      → publish_and_answer run check app c event w ≡ ok a w'
      → Answers order header a w'
  publish_Answers order header c order_id event a w w' echo same payload checks h =
      published (app.publisher app.topic event w) refl h
    where
      failed :
          (e : Exc) (v : W) (b : Bool)
          → is_publish_error e ≡ b
          → app.publisher app.topic event w ≡ raise e v
          → (if b then pure (refused 503 "Order event could not be published.") else throw e) v
            ≡ ok a w'
          → Answers order header a w'
      failed e v true caught raised g =
          let answer : refused 503 "Order event could not be published." ≡ a = cc (g) in
          let last : v ≡ w' = cc (g) in
          subst (λ x. Answers order header x w') answer
            (
              refl,
              (
                event,
                e,
                w,
                subst (λ x. app.publisher app.topic event w ≡ raise e x) last raised,
                caught,
              ),
            )
      failed e v false caught raised g = absurd (cc)

      published :
          (o : Outcome W R)
          → app.publisher app.topic event w ≡ o
          → attempt o
              (λ e.
                if is_publish_error e
                then pure (refused 503 "Order event could not be published.")
                else throw e)
              (λ _. pure (accepted_for run check app c event))
            ≡ ok a w'
          → Answers order header a w'
      published (ok receipt v) returned g =
          let answer : accepted_for run check app c event ≡ a = cc (g) in
          let last : v ≡ w' = cc (g) in
          subst (λ x. Answers order header x w') answer
            (
              event,
              receipt,
              w,
              subst (λ x. app.publisher app.topic event w ≡ ok receipt x) last returned,
              checks,
              subst (λ x. event.payload ≡ data_of run check app x order)
                  (sym (ap (λ d. d.order_id) payload)) payload,
              refl,
              sym same,
              sym same,
              echo,
            )
      published (raise e v) raised g = failed e v (is_publish_error e) refl raised g
      published out_of_fuel e g = absurd (cc)

  -- Where fresh correlation IDs are not empty: an answer 202 to POST /orders follows, as the last
  -- call, a publication that returned, of an event that passed its checks and that carries the
  -- request and the identities of the answer, and it returns the request's correlation header if
  -- that is given and not empty. Any other answer is 503 and follows a publication that raised
  -- EventPublishError.
  pub create_order-Answers :
      (order : CreateOrderRequest) (header : Option String) (a : Answer) (w w' : W)
      → ((v v' : W) (s : String) → app.new_correlation_id v ≡ ok s v' → is_empty s ≡ false)
      → create_order run check app order header w ≡ ok a w'
      → Answers order header a w'
  unfolding create_order
  create_order-Answers order header a w w' full h =
      let (c, w1, chosen, h1) = continue-eq-ok (or_text header app.new_correlation_id w) _ h in
      let (order_id, w2, _, h2) = continue-eq-ok (app.new_order_id w1) _ h1 in
      let (causation, w3, _, h3) = continue-eq-ok (app.new_causation_id w2) _ h2 in
      let (event, w4, made, h4) =
        continue-eq-ok
          (make_order_created_event run check (data_of run check app order_id order) none (some c)
            (some causation) none w3)
          _ h3 in
      let (echo, nonempty) = or_text-Echoes header app.new_correlation_id c w w1 full chosen in
      let (same, payload, checks) =
        make_order_ok run check _ c causation event w3 w4 nonempty made in
      publish_Answers order header c order_id event a w4 w' echo same payload checks h4
