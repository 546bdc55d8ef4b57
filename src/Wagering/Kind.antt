-- ===== src/Wagering/Kind.antt =====
-- internal/domain/wagering/kind.go. Each of these is a string in the code: a constructor for each
-- declared value and `other` for every other string.
use wagering_wallet_service.Base.{if◌then◌else◌, String, Bool, true, false, str_eq}

pub data Kind : Type 0 where
  opening bet win loss refund rollback : Kind
  other : String → Kind

-- The conversion `Kind(text)`.
unfoldable pub to_kind : String → Kind
to_kind text =
    if str_eq text "OPENING"
    then opening
    else if str_eq text "BET"
    then bet
    else if str_eq text "WIN"
    then win
    else if str_eq text "LOSS"
    then loss
    else if str_eq text "REFUND"
    then refund
    else if str_eq text "ROLLBACK"
    then rollback
    else other text

-- `Kind.String`
abbrev pub kind_text : Kind → String
kind_text opening = "OPENING"
kind_text bet = "BET"
kind_text win = "WIN"
kind_text loss = "LOSS"
kind_text refund = "REFUND"
kind_text rollback = "ROLLBACK"
kind_text (other text) = text

-- `Kind.Valid`
abbrev pub is_kind : Kind → Bool
is_kind (other _) = false
is_kind _ = true

-- `Kind.External`
abbrev pub is_external_kind : Kind → Bool
is_external_kind opening = false
is_external_kind k = is_kind k

-- `Kind.Reversal` and `Kind.RequiresReference`
abbrev pub is_reversal : Kind → Bool
is_reversal refund = true
is_reversal rollback = true
is_reversal _ = false

abbrev pub requires_reference : Kind → Bool
requires_reference = is_reversal

-- `Kind.ForbidsReference`
abbrev pub forbids_reference : Kind → Bool
forbids_reference bet = true
forbids_reference loss = true
forbids_reference _ = false

pub data Status : Type 0 where
  pending pending_reference processed rejected failed : Status
  other : String → Status

-- `Status.Valid`
abbrev pub is_status : Status → Bool
is_status (other _) = false
is_status _ = true

-- `Status.Terminal`
abbrev pub is_terminal : Status → Bool
is_terminal processed = true
is_terminal rejected = true
is_terminal failed = true
is_terminal _ = false

pub data Origin : Type 0 where
  internal http queue : Origin
  other : String → Origin

-- `Origin.Valid`
abbrev pub is_origin : Origin → Bool
is_origin (other _) = false
is_origin _ = true

-- `Origin.External`
abbrev pub is_external_origin : Origin → Bool
is_external_origin http = true
is_external_origin queue = true
is_external_origin _ = false

-- `no_code` is the empty string.
pub data FailureCode : Type 0 where
  no_code : FailureCode
  insufficient_funds reversal_insufficient_funds balance_limit_exceeded : FailureCode
  reference_not_found reference_not_processed reference_mismatch : FailureCode
  reference_kind_not_allowed already_reversed currency_mismatch : FailureCode
  wallet_player_mismatch permanent_failure : FailureCode
  other : String → FailureCode

-- `FailureCode.Valid`
abbrev pub is_failure_code : FailureCode → Bool
is_failure_code no_code = false
is_failure_code (other _) = false
is_failure_code _ = true

-- `code == ""`
abbrev pub is_no_code : FailureCode → Bool
is_no_code no_code = true
is_no_code _ = false

-- `code == PermanentFailure`
abbrev pub is_permanent : FailureCode → Bool
is_permanent permanent_failure = true
is_permanent _ = false

-- Comparisons with one value.
abbrev pub is_opening : Kind → Bool
is_opening opening = true
is_opening _ = false

abbrev pub is_bet : Kind → Bool
is_bet bet = true
is_bet _ = false

abbrev pub is_loss : Kind → Bool
is_loss loss = true
is_loss _ = false

abbrev pub is_internal : Origin → Bool
is_internal internal = true
is_internal _ = false

abbrev pub is_pending : Status → Bool
is_pending pending = true
is_pending _ = false

abbrev pub is_pending_reference : Status → Bool
is_pending_reference pending_reference = true
is_pending_reference _ = false

abbrev pub is_processed : Status → Bool
is_processed processed = true
is_processed _ = false
