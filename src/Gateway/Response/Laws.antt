-- ===== src/Gateway/Response/Laws.antt =====
-- Which payloads of query-api are passed on as a catalog.
use text.Mathlib.Text.{◌==◌}
use vocastock.Prelude.{
  String, Bool, true, false, not, ◌&&◌, ◌≡◌, ◌⊎◌, inl, inr, refl, Option, none, some, List, [], ◌∷◌,
  All, Result, ok, err, ◌>>◌, refuse_if, ok_or, ok-of_bind, Bool-cases, arith, eq_iff, sym,
}
use vocastock.Json.{Value, Fields, get_field, as_object, as_array, is_given}
use vocastock.QueryApi.Contract as Query
use vocastock.Gateway.Failure.{GatewayFailure, downstream_invalid_response}
use vocastock.Gateway.Response.{
  member, require_string, require_array, require_item, require_items, text_member, wrap_data,
  catalog_success_response,
}

of_then :
    {A : Type 0} (step : Result (Unit {0}) GatewayFailure) (later : Result A GatewayFailure) (a : A)
    → step >> later ≡ ok a
    → (step ≡ ok tt) × (later ≡ ok a)
of_then (ok u) later a h = (refl, h)
of_then (err failure) later a h = cc h

of_refuse_if : (b : Bool) (failure : GatewayFailure) → refuse_if b failure ≡ ok tt → b ≡ false
of_refuse_if true failure h = cc h
of_refuse_if false failure h = refl

of_ok_or :
    {A : Type 0} (given : Option A) (failure : GatewayFailure) (a : A)
    → ok_or given failure ≡ ok a
    → given ≡ some a
of_ok_or none failure a h = cc h
of_ok_or (some b) failure a h = cc h

not-given : {A : Type 0} (given : Option A) → is_given given ≡ false → given ≡ none
not-given none h = refl
not-given (some a) h = cc h

-- An object with a visibility of the two that the public schema has, and without details.
abbrev pub IsPublicItem : Value → Type 0
IsPublicItem item =
    (fields : Fields) × (as_object item ≡ some fields)
    × (get_field "detailPayload" fields ≡ none)
    × ((text_member "visibility" fields ≡ "completed-summary")
        ⊎ (text_member "visibility" fields ≡ "status-only"))

one_of_two :
    (text a b : String) → (not (text == a) && not (text == b)) ≡ false → (text ≡ a) ⊎ (text ≡ b)
one_of_two text a b h = elim (Bool-cases (text == a)) [
  | inl e ↦ inl ((eq_iff text a).0 e)
  | inr e ↦ inr ((eq_iff text b).0 (ground (arith, e, h)))
]

require_item-IsPublicItem : (item : Value) → require_item item ≡ ok tt → IsPublicItem item
unfolding require_item
require_item-IsPublicItem item h =
    let failure = downstream_invalid_response Query.service_name in
    let (fields, is_object, h1) = ok-of_bind {step = ok_or (as_object item) failure} h in
    let (_, h2) =
      of_then (require_string fields "vocabularyExpression" Query.service_name) _ tt h1 in
    let (_, h3) = of_then (require_string fields "registrationState" Query.service_name) _ tt h2 in
    let (_, h4) = of_then (require_string fields "explanationState" Query.service_name) _ tt h3 in
    let (_, h5) = of_then (require_string fields "visibility" Query.service_name) _ tt h4 in
    let (no_detail, visible) =
      of_then (refuse_if (is_given (get_field "detailPayload" fields)) failure) _ tt h5 in
    (
      fields,
      of_ok_or (as_object item) failure fields (sym is_object),
      not-given (get_field "detailPayload" fields) (of_refuse_if _ failure no_detail),
      one_of_two (text_member "visibility" fields) "completed-summary" "status-only"
          (of_refuse_if _ failure visible),
    )

require_items-All : (items : List Value) → require_items items ≡ ok tt → All IsPublicItem items
unfolding require_items
require_items-All [] h = tt
require_items-All (item ∷ items) h =
    let (first, later) = of_then (require_item item) (require_items items) tt h in
    (require_item-IsPublicItem item first, require_items-All items later)

-- A payload that is passed on as a catalog is an object with a list of items that it calls empty or
-- populated, and is passed on as it is; each item is an object without details whose visibility is a completed summary or a status
-- only.
pub catalog_success_response-ok :
    (payload response : Value)
    → catalog_success_response payload ≡ ok response
    → (fields : Fields) × (items : List Value) × (as_object payload ≡ some fields)
      × (member as_array "items" fields ≡ some items)
      × ((text_member "collectionState" fields ≡ "empty")
          ⊎ (text_member "collectionState" fields ≡ "populated"))
      × All IsPublicItem items
      × (response ≡ wrap_data "vocabularyCatalog" payload)
unfolding catalog_success_response
catalog_success_response-ok payload response h =
    let failure = downstream_invalid_response Query.service_name in
    let (fields, is_object, h1) = ok-of_bind {step = ok_or (as_object payload) failure} h in
    let (_, h2) =
      of_then (require_string fields "collectionState" Query.service_name) _ response h1 in
    let (_, h3) = of_then (require_array fields "items" Query.service_name) _ response h2 in
    let state = text_member "collectionState" fields in
    let other : Bool = not (state == "empty") && not (state == "populated") in
    let (known, h4) = of_then (refuse_if other failure) _ response h3 in
    let (items, has_items, h5) =
      ok-of_bind {step = ok_or (member as_array "items" fields) failure} h4 in
    let (checked, passed) =
      of_then (require_items items) (ok (wrap_data "vocabularyCatalog" payload)) response h5 in
    (
      fields,
      items,
      of_ok_or (as_object payload) failure fields (sym is_object),
      of_ok_or (member as_array "items" fields) failure items (sym has_items),
      one_of_two state "empty" "populated" (of_refuse_if other failure known),
      require_items-All items checked,
      cc passed,
    )
