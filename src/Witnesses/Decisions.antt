-- ===== src/Witnesses/Decisions.antt =====
-- The property of decisions on professionals at a concrete one, who was rejected before.
use v2_backend.Common.Error.{already_decided}
use v2_backend.Admin.Bookings.{rejected, approved}
use v2_backend.Admin.Approvals.{
  CandidateTable, Candidate, decide, candidate_id, candidate_conflict, candidate_at, decide_lem,
}
use v2_backend.Common.{◌≡◌, some, [], ◌∷◌, err, Failure, refl}
use v2_backend.Table.Listed.{visible, listed}

abbrev candidate_table : CandidateTable
candidate_table = listed candidate_id candidate_conflict

abbrev turned_down : Candidate
turned_down = record {
  id = 4;
  status = rejected;
  decided_by = some 1;
  decided_at = some 10;
  note = [];
}

decide_lem_example :
    ((decide candidate_table 4 approved 2 [] 20 (turned_down ∷ [])).0
      ≡ err (Failure.domain 409 already_decided))
    × (candidate_at candidate_table 4
          (decide candidate_table 4 approved 2 [] 20 (turned_down ∷ [])).1
        ≡ some turned_down)
unfolding visible
decide_lem_example =
    decide_lem candidate_table 4 approved 2 [] 20 (turned_down ∷ []) turned_down refl
