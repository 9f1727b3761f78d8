-- ===== src/Admin/Approvals.antt =====
-- src/modules/admin/professional-approvals.service.ts and professional-approvals.repository.ts: the
-- super admin approves or rejects a professional that waits. Notes are texts that were trimmed.
use v2_backend.Common.Error.{already_decided, Resource}
use v2_backend.Table.{Table}
use v2_backend.Admin.Bookings.{ProfessionalStatus, approved, rejected, waiting}
use v2_backend.Common.{
  ℕ, some, Bool, Option, Action, ◌==◌, ◌≡◌, ◌>>=◌, true, update, gets, [], if◌then◌else◌, false,
  ◌&&◌, ok, ◌>>◌, pure, or_throw, err, Failure, arith, throw_if, Bool-cases, not, inl, inr, refl,
  Text,
}

-- What is decided of a professional.
pub record Candidate : Type 0 where
  pub id : ℕ
  pub status : ProfessionalStatus
  pub decided_by : Option ℕ
  pub decided_at : Option ℕ
  pub note : Text

abbrev pub candidate_id : Candidate → ℕ
candidate_id c = c.id

abbrev pub candidate_conflict : Candidate → Candidate → Bool
candidate_conflict a b = b.id == a.id

abbrev pub CandidateTable : Type 1
CandidateTable = Table Candidate candidate_id candidate_conflict

abbrev pub is_waiting : Candidate → Bool
is_waiting c = elim c.status [ waiting ↦ true | approved ↦ false | rejected ↦ false ]

module _ (ct : CandidateTable) where
  abbrev pub candidate_at : ℕ → ct.Rows → Option Candidate
  candidate_at k s = ct.find (λ c. c.id == k) s

  abbrev pub decided_row : ProfessionalStatus → ℕ → Text → ℕ → Candidate → Candidate
  decided_row status super note now c = record c {
    status = status;
    decided_by = some super;
    decided_at = some now;
    note = note;
  }

  -- Records the decision only if the professional still waits.
  unfoldable pub record_decision : ℕ → ProfessionalStatus → ℕ → Text → ℕ → Action ct.Rows Bool
  record_decision id status super note now = do
    n ← update (λ s.
        let (rows, n) =
          ct.update_many (λ c. (c.id == id) && is_waiting c) (decided_row status super note now)
            s in
        (n, rows))
    pure (n == 1)

  unfoldable pub decide : ℕ → ProfessionalStatus → ℕ → Text → ℕ → Action ct.Rows Candidate
  unfolding record_decision
  decide id status super note now = do
    current ← gets (candidate_at id)
    or_throw current (Failure.not_found Resource.professional)
    recorded ← record_decision id status super note now
    throw_if (not recorded) (Failure.domain 409 already_decided)
    found ← gets (candidate_at id)
    or_throw found Failure.crash

  unfoldable pub approve : ℕ → ℕ → ℕ → Action ct.Rows Candidate
  unfolding decide
  approve id super now = decide id approved super [] now

  unfoldable pub reject : ℕ → ℕ → Text → ℕ → Action ct.Rows Candidate
  unfolding decide
  reject id super note now = decide id rejected super note now

  -- A decision on a professional who waits returns them with the decision, which is recorded; one on a
  -- professional who was decided throws, and leaves what was decided.
  pub decide_lem :
      (id : ℕ) (status : ProfessionalStatus) (super : ℕ) (note : Text) (now : ℕ) (s : ct.Rows)
      (c : Candidate)
      → candidate_at id s ≡ some c
      → let (x, s') = decide id status super note now s in
        if is_waiting c
        then (x ≡ ok (decided_row status super note now c))
          × (candidate_at id s' ≡ some (decided_row status super note now c))
        else (x ≡ err (Failure.domain 409 already_decided)) × (candidate_at id s' ≡ some c)
  unfolding decide record_decision
  decide_lem id status super note now s c e =
      let count = ct.count_unique is_waiting (decided_row status super note now) s id in
      let at =
        ct.find_update (λ c. (c.id == id) && is_waiting c) (decided_row status super note now) s id
          (λ x. refl) in
      let key : c.id ≡ id = ground (arith, (ct.find_sound (λ c. c.id == id) s c e).0) in
      elim (Bool-cases (is_waiting c)) [
        | inl waits ↦
            rw waits
              (ground (arith, count, at, key, e, waits), ground (arith, count, at, key, e, waits))
        | inr done ↦
            rw done
              (ground (arith, count, at, key, e, done), ground (arith, count, at, key, e, done))
      ]
