-- ===== src/CommandApi/PubsubDispatch/Laws.antt =====
-- What the attributes of a published message tell of its dispatch request.
use text.Mathlib.Text.{◌==◌}
use vocastock.Prelude.{ℕ, String, ◌≡◌, refl, Option, none, some, List, [], ◌∷◌, ◌++◌, if◌then◌else◌}
use vocastock.Json.{◌>>=◌}
use vocastock.TextMap.{lookup}
use vocastock.CommandApi.Dispatch.{
  DispatchKind, explanation_generation, image_generation, retry, purchase, restore_purchase, as_str,
  DispatchRequest,
}
use vocastock.PubSub.Message.{message_of, with_attribute}
use vocastock.CommandApi.PubsubDispatch.{JsonValue, build_dispatch_message}

-- The kind that a subscriber takes a name for.
unfoldable pub kind_of : String → Option DispatchKind
kind_of name =
    if name == "explanation-generation"
    then some explanation_generation
    else if name == "image-generation"
    then some image_generation
    else if name == "retry"
    then some retry
    else if name == "purchase"
    then some purchase
    else if name == "restore-purchase"
    then some restore_purchase
    else none

kind_of-as_str : (kind : DispatchKind) → kind_of (as_str kind) ≡ some kind
unfolding kind_of as_str
kind_of-as_str explanation_generation = refl
kind_of-as_str image_generation = refl
kind_of-as_str retry = refl
kind_of-as_str purchase = refl
kind_of-as_str restore_purchase = refl

abbrev optional : String → Option String → List (String × String)
optional key none = []
optional key (some value) = (key, value) ∷ []

abbrev attributes_of : DispatchRequest → List (String × String)
attributes_of request =
    ("actor", request.actor_reference)
      ∷ ("idempotencyKey", request.idempotency_key)
      ∷ ("kind", as_str request.kind)
      ∷ optional "retryTarget" request.retry_target
    ++ optional "planCode" request.plan_code

build_dispatch_message-attributes :
    (write : List (String × JsonValue) → List ℕ) (request : DispatchRequest)
    (retry_target plan_code : Option String)
    → request.retry_target ≡ retry_target
    → request.plan_code ≡ plan_code
    → (build_dispatch_message write request).attributes ≡ attributes_of request
unfolding build_dispatch_message message_of with_attribute
build_dispatch_message-attributes write request none none r p = simp (r, p)
build_dispatch_message-attributes write request none (some code) r p = simp (r, p)
build_dispatch_message-attributes write request (some target) none r p = simp (r, p)
build_dispatch_message-attributes write request (some target) (some code) r p = simp (r, p)

lookup-optional :
    (retry_target plan_code : Option String)
    → let attributes = optional "retryTarget" retry_target ++ optional "planCode" plan_code in
      (lookup "retryTarget" attributes ≡ retry_target) × (lookup "planCode" attributes ≡ plan_code)
unfolding lookup
lookup-optional none none = (refl, refl)
lookup-optional none (some code) = (refl, refl)
lookup-optional (some target) none = (refl, refl)
lookup-optional (some target) (some code) = (refl, refl)

lookup-attributes_of :
    (request : DispatchRequest)
    → (lookup "actor" (attributes_of request) ≡ some request.actor_reference)
      × (lookup "idempotencyKey" (attributes_of request) ≡ some request.idempotency_key)
      × (lookup "kind" (attributes_of request) >>= kind_of ≡ some request.kind)
      × (lookup "retryTarget" (attributes_of request) ≡ request.retry_target)
      × (lookup "planCode" (attributes_of request) ≡ request.plan_code)
unfolding lookup
lookup-attributes_of request =
    let (target, code) = lookup-optional request.retry_target request.plan_code in
    (refl, refl, kind_of-as_str request.kind, target, code)

-- A subscriber reads the actor, the key, the kind, the retry target and the plan code of a
-- dispatch request back from the attributes of its message, where the five kinds are named
-- explanation-generation, image-generation, retry, purchase and restore-purchase; the last two of
-- the attributes are there only where the request has them.
pub lookup-build_dispatch_message :
    (write : List (String × JsonValue) → List ℕ) (request : DispatchRequest)
    → let attributes = (build_dispatch_message write request).attributes in
      (lookup "actor" attributes ≡ some request.actor_reference)
      × (lookup "idempotencyKey" attributes ≡ some request.idempotency_key)
      × (lookup "kind" attributes >>= kind_of ≡ some request.kind)
      × (lookup "retryTarget" attributes ≡ request.retry_target)
      × (lookup "planCode" attributes ≡ request.plan_code)
lookup-build_dispatch_message write request =
    rw (build_dispatch_message-attributes write request _ _ refl refl)
      (lookup-attributes_of request)
