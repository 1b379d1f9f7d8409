-- ===== src/Website/Inclusion/Query.antt =====
-- apps/website/src/features/solutions/hooks/use-inclusion-check.ts: the field in which a visitor
-- types a reference, and the result shown behind it.
use solva.Prelude.{◌≡◌, refl, ◌⊎◌, inl, inr, [], Option, none, some, if◌then◌else◌}
use solva.Prelude.Text.{Text, is_truthy}
use solva.Website.Inclusion.{InclusionSnapshot, InclusionResult, idle, check_inclusion}

pub record InclusionState : Type 0 where
  pub query : Text
  pub result : InclusionResult

pub data InclusionAction : Type 0 where
  typed : (query : Text) → InclusionAction
  pick : (reference : Text) → InclusionAction
  submit_query : InclusionAction

unfoldable reducer :
    (Text → Text) → InclusionSnapshot → InclusionState → InclusionAction → InclusionState
reducer to_upper_case snapshot state (typed query) = record { query = query; result = idle }
reducer to_upper_case snapshot state (pick reference) = record {
  query = reference;
  result = check_inclusion to_upper_case reference snapshot;
}
reducer to_upper_case snapshot state submit_query = record {
  query = state.query;
  result = check_inclusion to_upper_case state.query snapshot;
}

unfoldable initial_state : (Text → Text) → InclusionSnapshot → Option Text → InclusionState
initial_state to_upper_case snapshot none = record { query = []; result = idle }
initial_state to_upper_case snapshot (some reference) = record {
  query = reference;
  result = if is_truthy reference then check_inclusion to_upper_case reference snapshot else idle;
}

-- The result shown is none, or the one for the text in the field.
abbrev Current : (Text → Text) → InclusionSnapshot → InclusionState → Type 0
Current to_upper_case snapshot state =
    (state.result ≡ idle) ⊎ (state.result ≡ check_inclusion to_upper_case state.query snapshot)

-- No action leaves a result that belongs to another text.
reducer-Current :
    (to_upper_case : Text → Text) (snapshot : InclusionSnapshot) (state : InclusionState)
    (action : InclusionAction)
    → Current to_upper_case snapshot (reducer to_upper_case snapshot state action)
unfolding reducer
reducer-Current to_upper_case snapshot state (typed query) = inl refl
reducer-Current to_upper_case snapshot state (pick reference) = inr refl
reducer-Current to_upper_case snapshot state submit_query = inr refl
