-- ===== src/CommandApi/Store/Laws.antt =====
-- The in-memory store as two maps keyed by pairs of an actor and a value.
use text.Mathlib.Text.{◌==◌}
use mathlib.Core.Path.{fun_ext}
use vocastock.Prelude.{
  String, ◌≡◌, refl, true, ◌&&◌, ◌↔◌, List, Option, some, arith, eq_iff, if◌then◌else◌,
}
use vocastock.TextMap.{lookup, insert, lookup-insert}
use vocastock.CommandApi.Contract.{registered_state}
use vocastock.CommandApi.Response.{AcceptedCommandResult}
use vocastock.CommandApi.Request.{RegisterVocabularyExpressionCommand}
use vocastock.CommandApi.Store.Keys.{scoped_key, scoped_key_injective}
use vocastock.CommandApi.Store.{
  StoredRegistration, RequestFingerprint, PlannedNewRegistration, PlannedReuseRegistration,
  StoreDecision, StoredIdempotencyRecord, StoreState, fingerprint_for, same_fingerprint,
  plan_registration, plan_record, plan, commit, commit_new, commit_reuse,
}

-- The contract of the store: for every actor, registrations by text and records by key.
pub record PairStore : Type 0 where
  pub registered : String → String → Option StoredRegistration
  pub recorded : String → String → Option StoredIdempotencyRecord

abbrev pub set_at {ℓ} :
    {V : Type ℓ} → String → String → V → (String → String → Option V) → String → String → Option V
set_at a s v f b t = if a == b && s == t then some v else f b t

abbrev pub planned_of : RegisterVocabularyExpressionCommand → PairStore → StoreDecision
planned_of command pairs =
    plan_record command (pairs.recorded command.actor.actor.as_str command.idempotency_key) (
      plan_registration command
        (pairs.registered command.actor.actor.as_str command.normalized_text))

abbrev pub committed :
    RegisterVocabularyExpressionCommand
    → StoredRegistration
    → AcceptedCommandResult
    → PairStore
    → PairStore
committed command registration result pairs = record {
  registered =
      set_at command.actor.actor.as_str command.normalized_text registration pairs.registered;
  recorded =
      set_at command.actor.actor.as_str command.idempotency_key
        (record { fingerprint = fingerprint_for command; result = result }) pairs.recorded;
}

-- What the texts of the keys stand for.
abbrev pub pairs_of : StoreState → PairStore
pairs_of state = record {
  registered = λ a t. lookup (scoped_key a t) state.registrations;
  recorded = λ a k. lookup (scoped_key a k) state.idempotency_records;
}

scoped_key-== : (a b s t : String) → (scoped_key a s == scoped_key b t) ≡ (a == b && s == t)
scoped_key-== a b s t = ground (
  arith,
  eq_iff a b,
  eq_iff s t,
  eq_iff (scoped_key a s) (scoped_key b t),
  scoped_key_injective a b s t,
)

pub lookup-insert_scoped {ℓ} :
    {V : Type ℓ} (a s : String) (v : V) (entries : List (String × V)) (b t : String)
    → lookup (scoped_key b t) (insert (scoped_key a s) v entries)
      ≡ set_at a s v (λ c u. lookup (scoped_key c u) entries) b t
lookup-insert_scoped a s v entries b t =
    rw (lookup-insert (scoped_key a s) (scoped_key b t) v entries, scoped_key-== a b s t)

pub pairs_of-commit :
    (command : RegisterVocabularyExpressionCommand) (registration : StoredRegistration)
    (result : AcceptedCommandResult) (state : StoreState)
    → pairs_of (commit command registration result state)
      ≡ committed command registration result (pairs_of state)
pairs_of-commit command registration result state = λ i. record {
  registered =
      fun_ext
        (λ b. fun_ext (λ t.
          lookup-insert_scoped command.actor.actor.as_str command.normalized_text registration
            state.registrations b t))
        i;
  recorded =
      fun_ext
        (λ b. fun_ext (λ t.
          lookup-insert_scoped command.actor.actor.as_str command.idempotency_key
            (record { fingerprint = fingerprint_for command; result = result })
            state.idempotency_records b t))
        i;
}

-- A plan and the two commits of the in-memory store are those of the pairs that it stands for.
abbrev pub Refines :
    RegisterVocabularyExpressionCommand
    → StoreState
    → AcceptedCommandResult
    → PlannedNewRegistration
    → PlannedReuseRegistration
    → Type 0
Refines command state result new reuse =
    (plan command state ≡ planned_of command (pairs_of state))
    × (pairs_of (commit_new command new result state)
        ≡ committed command
            (record {
              vocabulary_expression = new.vocabulary_expression;
              registration_state = registered_state;
              explanation_state = new.explanation_state;
            })
            result (pairs_of state))
    × (pairs_of (commit_reuse command reuse result state)
        ≡ committed command
            (record {
              vocabulary_expression = reuse.existing_registration.vocabulary_expression;
              registration_state = reuse.existing_registration.registration_state;
              explanation_state = reuse.resulting_explanation_state;
            })
            result (pairs_of state))

-- The in-memory store, whose keys are texts, implements the store keyed by pairs: it plans from
-- the registration of the actor's text and the record of the actor's key alone, and either
-- commit changes these two and nothing else.
pub in_memory_store-Refines :
    (command : RegisterVocabularyExpressionCommand) (state : StoreState)
    (result : AcceptedCommandResult) (new : PlannedNewRegistration)
    (reuse : PlannedReuseRegistration)
    → Refines command state result new reuse
unfolding plan commit_new commit_reuse
in_memory_store-Refines command state result new reuse =
    (refl, pairs_of-commit command _ result state, pairs_of-commit command _ result state)

pub same_fingerprint_iff : (a b : RequestFingerprint) → (same_fingerprint a b ≡ true) ↔ (a ≡ b)
unfolding same_fingerprint
same_fingerprint_iff a b = ground (arith, eq_iff a.normalized_text b.normalized_text)
