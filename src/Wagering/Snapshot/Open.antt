-- ===== src/Wagering/Snapshot/Open.antt =====
-- What holds of a storable operation that is not yet terminal.
use wagering_wallet_service.Base.{ok, is_nil, ◌≡◌, true, false, arith}
use wagering_wallet_service.Money.{is_valid}
use wagering_wallet_service.Wagering.Kind.{is_terminal, is_no_code, is_opening}
use wagering_wallet_service.Wagering.Transaction.{Transaction, check_external}
use wagering_wallet_service.Wagering.Snapshot.{
  Snapshot, command_of, validate_origin, validate_result,
}
use wagering_wallet_service.Wagering.Snapshot.Stored.{IsStorable, snapshot_of}

-- What an operation that is not terminal has not got yet.
pub record IsOpen (t : Transaction) : Type 0 where
  pub live : is_terminal t.status ≡ false
  pub external : is_opening t.kind ≡ false
  pub no_failure : is_no_code t.failure_code ≡ true
  pub no_result : is_valid t.result_balance ≡ false
  pub unresolved : is_nil t.reference_transaction_id ≡ true

not_opening :
    (t : Transaction)
    → validate_origin (snapshot_of t) ≡ ok tt
    → is_terminal t.status ≡ false
    → is_opening t.kind ≡ false
unfolding validate_origin snapshot_of
not_opening t h live = ground arith

open_result :
    (t : Transaction)
    → validate_result (snapshot_of t) ≡ ok tt
    → is_terminal t.status ≡ false
    → (is_no_code t.failure_code ≡ true)
      × (is_valid t.result_balance ≡ false)
      × (is_nil t.reference_transaction_id ≡ true)
unfolding validate_result snapshot_of
open_result t h live = ground arith

pub IsOpen-IsStorable : (t : Transaction) → IsStorable t → is_terminal t.status ≡ false → IsOpen t
IsOpen-IsStorable t h live =
    let (no_failure, no_result, unresolved) = open_result t h.result live in
    record {
      live = live;
      external = not_opening t h.origin live;
      no_failure = no_failure;
      no_result = no_result;
      unresolved = unresolved;
    }

-- For a kind that is no opening, the origin's checks read only the fields that no transition touches.
pub validate_origin-external :
    (s : Snapshot)
    → is_opening s.kind ≡ false
    → validate_origin s ≡ check_external (command_of s) s.id s.created_at
unfolding validate_origin
validate_origin-external s h = rw h
