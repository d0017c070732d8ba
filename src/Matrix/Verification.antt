-- ===== src/Matrix/Verification.antt =====
-- internal/matrix/verification.go and internal/matrix/txn_store.go: the verification of a device,
-- as the pages see it. mautrix's `VerificationHelper` is not in the repository: whether a call of
-- it fails is an argument, and the call is part of the result. A transaction has the fields that
-- are read here.
pub mod Calls
pub mod Laws
use arko.Base.{
  ℕ, String, Bool, true, false, ◌&&◌, Option, none, some, List, [], ◌∷◌, ◌++◌, ◌==◌, map,
  if◌then◌else◌,
}
use arko.Base.SyncMap.{SyncMap}

pub record VerificationEmoji : Type 0 where
  pub emoji : String
  pub description : String

pub record VerificationUiState : Type 0 where
  pub emojis : List VerificationEmoji
  pub decimals : List ℕ
  pub sas_active : Bool
  pub qr_scanned : Bool
  pub qr_active : Bool
  pub qr_code : Option String
  pub cancelled : Bool
  pub cancel_reason : String
  pub done : Bool

pub data VerificationEventType : Type 0 where
  requested ready cancelled_event done_event show_sas_event qr_scanned_event : VerificationEventType

pub data VerificationMethod : Type 0 where
  sas qr unset : VerificationMethod

pub record VerificationEvent : Type 0 where
  pub type : VerificationEventType
  pub method : VerificationMethod

abbrev pub zero_ui : VerificationUiState
zero_ui = record {
  emojis = [];
  decimals = 0 ∷ 0 ∷ 0 ∷ [];
  sas_active = false;
  qr_scanned = false;
  qr_active = false;
  qr_code = none;
  cancelled = false;
  cancel_reason = "";
  done = false;
}

-- `VerificationUIState.Clear`
unfoldable pub clear : VerificationUiState → VerificationUiState
clear s = record s {
  emojis = [];
  decimals = 0 ∷ 0 ∷ 0 ∷ [];
  sas_active = false;
  qr_active = false;
  qr_scanned = false;
  qr_code = none;
  cancelled = false;
  cancel_reason = "";
  done = false;
}

-- `ShowSAS`: a description for each emoji, empty where there is none, and three numbers.
unfoldable pub with_descriptions : List String → List String → List VerificationEmoji
with_descriptions [] descs = []
with_descriptions (e ∷ es) [] = record { emoji = e; description = "" } ∷ with_descriptions es []
with_descriptions (e ∷ es) (d ∷ ds) =
    record { emoji = e; description = d } ∷ with_descriptions es ds

unfoldable pub three : List ℕ → List ℕ
three [] = 0 ∷ 0 ∷ 0 ∷ []
three (a ∷ []) = a ∷ 0 ∷ 0 ∷ []
three (a ∷ b ∷ []) = a ∷ b ∷ 0 ∷ []
three (a ∷ b ∷ c ∷ rest) = a ∷ b ∷ c ∷ []

pub record Transaction : Type 0 where
  pub transaction_id : String
  pub their_user_id : String
  pub their_device_id : String
  pub step : ℕ

-- What `Range` finds first.
unfoldable pub first_of : String → String → List (String × Transaction) → Option Transaction
first_of user device [] = none
first_of user device (e ∷ es) =
    if e.1.their_user_id == user && e.1.their_device_id == device
    then some e.1
    else first_of user device es

module _ ⦃x : SyncMap⦄ where
  pub record TxnStore : Type 0 where
    pub txns : x.Map Transaction

  unfoldable pub new_store : TxnStore
  new_store = record { txns = x.new }

  -- The result is whether the error is nil.
  unfoldable pub delete_verification : TxnStore → String → TxnStore × Bool
  delete_verification s txn_id = elim (x.load s.txns txn_id) [
    | none ↦ (s, false)
    | some t ↦ (s, true)
  ]

  unfoldable pub get_verification_transaction : TxnStore → String → Option Transaction
  get_verification_transaction s txn_id = x.load s.txns txn_id

  unfoldable pub save_verification_transaction : TxnStore → Transaction → TxnStore
  save_verification_transaction s t = record s { txns = x.store s.txns t.transaction_id t }

  unfoldable pub find_for_user_device : TxnStore → String → String → Option Transaction
  unfolding first_of
  find_for_user_device s user device = first_of user device (x.range s.txns)

  unfoldable pub all_transactions : TxnStore → List Transaction
  all_transactions s = map (λ e. e.1) (x.range s.txns)

  -- The part of a `MatrixSession` that verification uses: `sent` lists the events with which
  -- `broadcastVerificationEvent` was called (how it sends them on the listeners' channels is in
  -- Handlers.Watch), `invalidated` whether the cached answer of `IsVerified` has been dropped.
  pub record Verifying : Type 0 where
    pub ui : VerificationUiState
    pub store : TxnStore
    pub sent : List VerificationEvent
    pub invalidated : Bool
    pub seen_as_verified : Bool

  -- The map of sessions of a `Manager`.
  abbrev pub Sessions : Type 0
  Sessions = x.Map Verifying
