-- ===== src/Http/Tests.antt =====
-- The HTTP side on concrete requests.
use wagering_wallet_service.Base.{
  if◌then◌else◌, Result, ok, Uuid, nil_uuid, no_time, pos, ltb_ℤ, codes, ℕ, ◌+◌, String, ◌≡◌, refl,
  ◌⊎◌, inr, false, Option, none, some, List, [], ◌∷◌, arith, str_eq,
}
use wagering_wallet_service.Money.{brl}
use wagering_wallet_service.Event.{Envelope}
use wagering_wallet_service.Wagering.Kind.{bet, http, rejected, insufficient_funds}
use wagering_wallet_service.Wagering.Transaction.{Transaction}
use wagering_wallet_service.Store.{Session}
use wagering_wallet_service.Store.UnitOfWork.{all_answered, Fate, committed}
use wagering_wallet_service.Usecase.Input.{ProcessWagerInput}
use wagering_wallet_service.Usecase.Process.{ProcessSettings}
use wagering_wallet_service.Doors.Request.{WagerRequest}
use wagering_wallet_service.Http.Problems.{
  problem, wallet_not_found, commit_unknown, respond, refuse,
}
use wagering_wallet_service.Http.Access.{Principal, bearer_token, authenticated, admitted}
use wagering_wallet_service.Http.Cursor.{
  encode_cursor, decode_cursor, decode-encode, decode_cursor-bound,
}
use wagering_wallet_service.Http.Answers.{transaction_of}
use wagering_wallet_service.Http.Handlers.{read, route_transaction, route_submit, limit_in}
use wagering_wallet_service.Http.Private.{MayRead, route_transaction-MayRead}
use wagering_wallet_service.Http.Unchanged.{submitted, submitted-Spared}

token_read : bearer_token (codes "Bearer  abc ") ≡ some (codes "abc")
unfolding bearer_token
token_read = refl

limit_refused : limit_in (codes "101") ≡ none
unfolding limit_in
limit_refused = refl

abbrev same_bytes : List ℕ → List ℕ
same_bytes bytes = bytes

abbrev from_same : List ℕ → Option (List ℕ)
from_same bytes = some bytes

cursor_example :
    decode_cursor same_bytes from_same (encode_cursor same_bytes from_same (pos 41)) ≡ some (pos 41)
cursor_example = decode-encode same_bytes from_same 41 (ground arith) (λ bytes. refl)

zero_run : decode_cursor same_bytes from_same (codes "v1:-0") ≡ some (pos 0)
unfolding decode_cursor wagering_wallet_service.Base.◌-ℤ◌
zero_run = refl

zero_example : ltb_ℤ (pos 0) (pos 0) ≡ false
zero_example = decode_cursor-bound same_bytes from_same (codes "v1:-0") zero_run

abbrev provider_a : Principal
provider_a = record { subject = "a"; provider_id = "provider-a"; roles = "wagering-provider" ∷ [] }

abbrev verify : List ℕ → Option Principal
verify token = some provider_a

abbrev parse_uuid : String → Option Uuid
parse_uuid text = if str_eq text "7" then some 7 else some 50

abbrev a_hash : String
a_hash = "0123456789abcdef0123456789abcdef0123456789abcdef0123456789abcdef"

abbrev stored : Transaction
stored = record {
  id = 7;
  origin = http;
  kind = bet;
  status = rejected;
  wallet_id = 1;
  player_id = 50;
  amount = record { minor = pos 2500; currency = brl };
  provider_id = "provider-a";
  external_transaction_id = "bet-1";
  idempotency_key = "key-1";
  payload_hash = a_hash;
  round_id = "round-1";
  game_id = "game";
  reference_external_id = "";
  reference_transaction_id = nil_uuid;
  failure_code = insufficient_funds;
  result_balance = record { minor = pos 100; currency = brl };
  reference_attempts = pos 0;
  next_attempt_at = no_time;
  reference_deadline_at = no_time;
  correlation_id = "correlation";
  created_at = 25;
  updated_at = 26;
  completed_at = 26;
}

abbrev with_rows : List Transaction → Session
with_rows rows = record {
  store = record { wallets = []; transactions = rows; ledger = []; outbox = []; inbox = [] };
  drawn = 0;
}

abbrev fate : Fate
fate = record {
  begin = none;
  timeouts = none;
  statement = all_answered;
  commit = committed;
  interrupted = none;
}

shown_run :
    route_transaction parse_uuid verify fate (codes "Bearer abc") "7" (with_rows (stored ∷ []))
    ≡ respond 200 (transaction_of stored)
unfolding route_transaction wagering_wallet_service.Store.Transactions.find_one
    wagering_wallet_service.Wagering.Snapshot.rehydrate
    wagering_wallet_service.Wagering.Snapshot.check_snapshot
    wagering_wallet_service.Wagering.Snapshot.Stored.snapshot_of
    wagering_wallet_service.Wagering.Snapshot.validate
    wagering_wallet_service.Wagering.Snapshot.validate_origin
    wagering_wallet_service.Wagering.Transaction.check_external
    wagering_wallet_service.Base.is_blank wagering_wallet_service.Base.is_payload_hash
    wagering_wallet_service.Wagering.Transaction.check_amount_policy
    wagering_wallet_service.Wagering.Snapshot.validate_schedule
    wagering_wallet_service.Wagering.Snapshot.validate_result
    wagering_wallet_service.Wagering.Snapshot.transaction_of
shown_run = refl

shown_example :
    (p : Principal) × (authenticated verify (codes "Bearer abc") ≡ inr p)
    × MayRead p (transaction_of stored)
shown_example =
    route_transaction-MayRead parse_uuid verify fate (codes "Bearer abc") "7"
      (with_rows (stored ∷ [])) shown_run

abbrev uuid_text : Uuid → String
uuid_text id = "id"

abbrev marshal : Envelope → Result (List ℕ)
marshal envelope = ok (1 ∷ [])

abbrev ids : ℕ → Uuid
ids n = n + 1

abbrev process_settings : ProcessSettings
process_settings = record { reference_backoff = 10; reference_ttl = 100 }

abbrev tag_problems : ProcessWagerInput → List String
tag_problems input = []

abbrev hash : ProcessWagerInput → Result String
hash input = ok a_hash

abbrev fates : ℕ → Fate
fates k = fate

abbrev bet_request : WagerRequest
bet_request = record {
  provider_id = "provider-a";
  external_transaction_id = "transaction-1";
  player_id = "50";
  wallet_id = "1";
  round_id = "round-1";
  game_id = "fortune-chimp";
  kind = "BET";
  money = record { minor = pos 2500; currency = brl };
  reference_external_transaction_id = none;
}

-- The wallet is not there.
missing_run :
    route_submit parse_uuid verify
      (submitted uuid_text marshal ids process_settings tag_problems hash 3 fates 30 31)
      (codes "Bearer abc")
      admitted
      (read bet_request)
      "key-1"
      "correlation"
      (with_rows [])
    ≡ (refuse (problem 404 wallet_not_found), with_rows [])
unfolding route_submit wagering_wallet_service.Usecase.Process.Execute.execute_process
    wagering_wallet_service.Wagering.Transaction.new_external
    wagering_wallet_service.Wagering.Transaction.check_external
    wagering_wallet_service.Base.is_blank wagering_wallet_service.Base.is_payload_hash
    wagering_wallet_service.Wagering.Transaction.check_amount_policy
    wagering_wallet_service.Store.Transactions.insert_in
missing_run = refl

missing_example :
    ((problem 404 wallet_not_found).code ≡ commit_unknown) ⊎ (with_rows [] ≡ with_rows [])
missing_example =
    submitted-Spared uuid_text marshal ids process_settings tag_problems hash 3 fates 30 31
      parse_uuid verify (codes "Bearer abc") admitted (read bet_request) "key-1" "correlation"
      (with_rows []) missing_run
