-- ===== src/Fold/Step/Accepted.antt =====
-- What an event that the fold accepts has passed.
use scalevault.Prelude.{
  ◌≡◌, Bool, ok, Passed, >>=-eq-ok, >>-eq-ok, map_err, map_err-eq-ok, ok-injective,
}
use scalevault.Events.Payloads.{Payload}
use scalevault.Events.Envelope.{MemoryEvent, Platform, typed_payload, verify_hashes}
use scalevault.Fold.State.{ProjectionState, checked, event_error}
use scalevault.Fold.Step.{
  apply_operation, check_branch, check_cause, check_visibility, recorded, fold_step,
  sequence_checks, duplicate_check,
}

pub record Accepted (p : Platform) (e : MemoryEvent) (s : ProjectionState) (contiguous : Bool)
    (r : ProjectionState) : Type 0 where
  pub order : Passed (sequence_checks p e s contiguous)
  pub verified : verify_hashes p e ≡ ok tt
  pub fresh : Passed (duplicate_check p e s)
  pub in_branch : check_branch p e s ≡ ok tt
  pub caused : check_cause p e s e.causation_event_id ≡ ok tt
  pub payload : Payload
  pub typed : typed_payload p e ≡ ok payload
  pub visible : check_visibility p e s payload ≡ ok tt
  pub applied : ProjectionState
  pub applies : apply_operation p e s e.operation payload ≡ ok applied
  pub becomes : r ≡ recorded p e s applied

pub fold_step-Accepted :
    (p : Platform) (e : MemoryEvent) (s : ProjectionState) (contiguous : Bool) (r : ProjectionState)
    → fold_step p e s contiguous ≡ ok r
    → Accepted p e s contiguous r
unfolding fold_step
fold_step-Accepted p e s contiguous r h =
    let (order, h1) = checked e (sequence_checks p e s contiguous) _ h in
    let (verified, h2) = >>-eq-ok (map_err event_error (verify_hashes p e)) _ h1 in
    let (fresh, h3) = checked e (duplicate_check p e s) _ h2 in
    let (in_branch, h4) = >>-eq-ok (check_branch p e s) _ h3 in
    let (caused, h5) = >>-eq-ok (check_cause p e s e.causation_event_id) _ h4 in
    let (payload, typed, h6) = >>=-eq-ok (map_err event_error (typed_payload p e)) _ h5 in
    let (visible, h7) = >>-eq-ok (check_visibility p e s payload) _ h6 in
    let (applied, applies, h8) = >>=-eq-ok (apply_operation p e s e.operation payload) _ h7 in
    record {
      order = order;
      verified = map_err-eq-ok event_error (verify_hashes p e) verified;
      fresh = fresh;
      in_branch = in_branch;
      caused = caused;
      payload = payload;
      typed = map_err-eq-ok event_error (typed_payload p e) typed;
      visible = visible;
      applied = applied;
      applies = applies;
      becomes = ok-injective h8;
    }
