-- ===== src/Usecase/Retry/Loop/Ends.antt =====
-- The loop of the retry ends.
use wagering_wallet_service.Base.{◌≤◌, some, Result, String, Uuid, Failure, ℕ, ◌≡◌, Option, List}
use wagering_wallet_service.Wagering.Transaction.{Transaction}
use wagering_wallet_service.Store.{Session}
use wagering_wallet_service.Store.Transactions
use wagering_wallet_service.Usecase.Retry.Loop.{ReferenceSettings, Envelope}

module _ (uuid_text : Uuid → String) (marshal : Envelope → Result (List ℕ)) (ids : ℕ → Uuid)
    (settings : ReferenceSettings) (retry_attempts : ℕ) where
  -- A run that ended, with a count within the batch.
  pub record Ended (run_of : Option ((Option Failure × ℕ) × Session)) : Type 0 where
    pub error : Option Failure
    pub handled : ℕ
    pub left : Session
    pub ended : run_of ≡ some ((error, handled), left)
    pub within : handled ≤ settings.batch_size
