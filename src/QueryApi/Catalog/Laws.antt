-- ===== src/QueryApi/Catalog/Laws.antt =====
-- What the catalog shows of each record, and to whom.
use vocastock.Prelude.{
  ◌≡◌, ◌⊎◌, inl, inr, refl, String, Bool, true, false, Option, none, some, Bool-cases, List, [],
  ◌∷◌, ok, ok_injective,
}
use vocastock.Auth.{VerifiedActorContext, is_active}
use vocastock.QueryApi.Catalog.{
  WorkflowState, status_reason, completed_summary, status_only, CollectionState, empty, populated,
  VocabularyCatalogItem, CatalogReadResponse, ProjectionSourceRecord, CatalogSource, is_some,
  completed_visibility, map_projection_record, items_of, collection_state_of, read_catalog,
}

-- A completed explanation with a summary is shown by the summary and no reason, and anything else
-- by the reason of its state and no summary.
abbrev pub Shows : ProjectionSourceRecord → VocabularyCatalogItem → Type 0
Shows r item =
    (item.vocabulary_expression ≡ r.vocabulary_expression)
    × (item.registration_state ≡ r.registration_state)
    × (item.explanation_state ≡ r.latest_workflow_state)
    × (((item.visibility ≡ completed_summary)
          × (r.current_explanation_available ≡ true)
          × (is_some r.summary ≡ true)
          × (item.summary ≡ r.summary)
          × (item.reason ≡ none))
        ⊎ ((item.visibility ≡ status_only)
            × ((r.current_explanation_available ≡ false) ⊎ (r.summary ≡ none))
            × (item.summary ≡ none)
            × (item.reason
                ≡ some (status_reason r.latest_workflow_state r.current_explanation_available))))

-- The items stand in the order of the records, one for each.
abbrev pub ShowsAll : List ProjectionSourceRecord → List VocabularyCatalogItem → Type 0
ShowsAll [] [] = Unit
ShowsAll [] (item ∷ items) = ⊥
ShowsAll (r ∷ records) [] = ⊥
ShowsAll (r ∷ records) (item ∷ items) = Shows r item × ShowsAll records items

abbrev pub StateOf : CollectionState → List ProjectionSourceRecord → Type 0
StateOf empty records = records ≡ []
StateOf populated [] = ⊥
StateOf populated (r ∷ records) = Unit

record_of : String → String → WorkflowState → Bool → Option String → ProjectionSourceRecord
record_of expression registration state available summary = record {
  vocabulary_expression = expression;
  registration_state = registration;
  latest_workflow_state = state;
  current_explanation_available = available;
  summary = summary;
}

map_projection_record-Shows :
    (v g : String) (w : WorkflowState) (available : Bool) (summary : Option String)
    → Shows
        (record_of v g w available summary)
        (map_projection_record (record_of v g w available summary))
unfolding map_projection_record completed_visibility record_of
map_projection_record-Shows v g w true (some s) =
    (refl, refl, refl, inl (refl, refl, refl, refl, refl))
map_projection_record-Shows v g w true none = (refl, refl, refl, inr (refl, inr refl, refl, refl))
map_projection_record-Shows v g w false summary =
    (refl, refl, refl, inr (refl, inl refl, refl, refl))

items_of-ShowsAll : (records : List ProjectionSourceRecord) → ShowsAll records (items_of records)
unfolding items_of record_of
items_of-ShowsAll [] = tt
items_of-ShowsAll (r ∷ records) = (
  map_projection_record-Shows r.vocabulary_expression r.registration_state r.latest_workflow_state
      r.current_explanation_available r.summary,
  items_of-ShowsAll records,
)

items_of-StateOf :
    (records : List ProjectionSourceRecord)
    → StateOf (collection_state_of (items_of records)) records
unfolding items_of
items_of-StateOf [] = refl
items_of-StateOf (r ∷ records) = tt

-- A catalog is only read in an active session; it has an item for each record of the actor, in
-- their order, which shows the summary of a completed explanation and otherwise the reason of the
-- state, never both and never neither; it is called empty exactly where the actor has no record.
pub read_catalog-ok :
    (context : VerifiedActorContext) (source : CatalogSource) (response : CatalogReadResponse)
    → read_catalog context source ≡ ok response
    → (is_active context ≡ true)
      × ShowsAll (source context) response.items
      × StateOf response.collection_state (source context)
unfolding read_catalog
read_catalog-ok context source response h = elim (Bool-cases (is_active context)) [
  | inr e ↦ absurd (cc (rw e at h))
  | inl e ↦
      let same = ok_injective (rw e at h) in
      (
        e,
        rw (← same) (items_of-ShowsAll (source context)),
        rw (← same) (items_of-StateOf (source context)),
      )
]
