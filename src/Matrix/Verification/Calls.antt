-- ===== src/Matrix/Verification/Calls.antt =====
-- internal/matrix/verification.go: the calls of the pages and the callbacks of mautrix, on the map
-- of sessions. `Compute` gives its function a nil session where the map has none, and the function
-- calls a method on it that locks: a panic.
use Prim.Native.Char.{code}
use arko.Base.{
  ℕ, String, Bool, true, false, Option, none, some, List, [], ◌∷◌, ◌++◌, eqb, if◌then◌else◌,
}
use arko.Base.SyncMap.{SyncMap}
use arko.Matrix.Verification.{
  VerificationUiState, VerificationEvent, requested, ready, cancelled_event, done_event,
  show_sas_event, qr_scanned_event, sas, qr, unset, clear, with_descriptions, three, Sessions,
  Transaction, all_transactions,
}

-- strings.ReplaceAll(recoveryKey, " ", "")
unfoldable pub without_blanks : String → String
without_blanks String.[] = String.[]
without_blanks (String.◌∷◌ c s) =
    let rest = without_blanks s in if eqb (code c) 32 then rest else String.◌∷◌ c rest

-- What a call asks of mautrix's helper, with the transaction it names.
pub data Request : Type 0 where
  confirm_sas confirm_qr cancel : String → Request

module _ ⦃x : SyncMap⦄ where
  -- An error, or the sessions afterwards.
  pub data Reply : Type 0 where
    refused crashed : Reply
    returns : Sessions → Reply

  unfoldable pub compute_ui :
      Sessions → String → (VerificationUiState → VerificationUiState) → Reply
  compute_ui s user f = elim (x.load s user) [
    | none ↦ crashed
    | some v ↦ returns (x.store s user (record v { ui = f v.ui }))
  ]

  -- `RequestSASVerification` and `RequestQRVerification`; `started` is whether mautrix starts it,
  -- and `later` the sessions when mautrix has answered, which may have changed since the call
  -- began.
  unfoldable pub request :
      Sessions → Sessions → String → (VerificationUiState → VerificationUiState) → Bool → Reply
  unfolding compute_ui
  request s later user f started = elim (x.load s user) [
    | none ↦ refused
    | some v ↦ if started then compute_ui later user f else refused
  ]

  unfoldable pub request_sas_verification : Sessions → Sessions → String → Bool → Reply
  unfolding request
  request_sas_verification s later user started =
      request s later user (λ ui. record ui { sas_active = true }) started

  unfoldable pub request_qr_verification : Sessions → Sessions → String → Bool → Reply
  unfolding request
  request_qr_verification s later user started =
      request s later user (λ ui. record ui { qr_active = true }) started

  unfoldable pub first_transaction : List Transaction → Option Transaction
  first_transaction [] = none
  first_transaction (t ∷ ts) = some t

  unfoldable pub get_active_transaction : Sessions → String → Option Transaction
  unfolding first_transaction all_transactions
  get_active_transaction s user = elim (x.load s user) [
    | none ↦ none
    | some v ↦ first_transaction (all_transactions v.store)
  ]

  -- The request that a call makes of the helper, where it does not end with an error before it.
  unfoldable pub ask : Sessions → String → (String → Request) → Option Request
  unfolding get_active_transaction
  ask s user make = elim (x.load s user) [
    | none ↦ none
    | some v ↦ elim (get_active_transaction s user) [
      | none ↦ none
      | some t ↦ some (make t.transaction_id)
    ]
  ]

  unfoldable pub confirm_verification : Sessions → String → Option Request
  unfolding ask
  confirm_verification s user = ask s user confirm_sas

  unfoldable pub confirm_qr_verification : Sessions → String → Option Request
  unfolding ask
  confirm_qr_verification s user = ask s user confirm_qr

  unfoldable pub cancel_verification : Sessions → String → Option Request
  unfolding ask
  cancel_verification s user = ask s user cancel

  -- `machine` is whether the crypto machine is there, `accepts` whether the server's key data
  -- verify a recovery key, `fetched` whether the cross-signing keys are fetched with it.
  unfoldable pub recover_with_key :
      Sessions → Sessions → String → String → Bool → (String → Bool) → Bool → Reply
  unfolding compute_ui without_blanks
  recover_with_key s later user key machine accepts fetched = elim (x.load s user) [
    | none ↦ refused
    | some v ↦
        if machine
        then if accepts (without_blanks key)
          then if fetched then compute_ui later user (λ ui. record ui { done = true }) else refused
          else refused
        else refused
  ]

  unfoldable pub clear_verification_state : Sessions → String → Reply
  unfolding compute_ui clear
  clear_verification_state s user = compute_ui s user clear

  unfoldable pub broadcast : Sessions → String → VerificationEvent → Sessions
  broadcast s user evt = elim (x.load s user) [
    | none ↦ s
    | some v ↦ x.store s user (record v { sent = v.sent ++ evt ∷ [] })
  ]

  unfoldable pub broadcast_after : Reply → String → VerificationEvent → Reply
  unfolding broadcast
  broadcast_after (returns s) user evt = returns (broadcast s user evt)
  broadcast_after r user evt = r

  unfoldable pub verification_requested : Sessions → String → Reply
  unfolding broadcast
  verification_requested s user =
      returns (broadcast s user (record { type = requested; method = unset }))

  unfoldable pub verification_ready : Sessions → String → Option String → Reply
  unfolding broadcast_after compute_ui
  verification_ready s user none =
      broadcast_after (returns s) user (record { type = ready; method = sas })
  verification_ready s user (some code) =
      broadcast_after
        (compute_ui s user (λ ui. record ui { qr_code = some code; qr_active = true })) user
        (record { type = ready; method = qr })

  unfoldable pub verification_cancelled : Sessions → String → String → Reply
  unfolding broadcast_after compute_ui
  verification_cancelled s user reason =
      broadcast_after
        (compute_ui s user (λ ui. record ui { cancelled = true; cancel_reason = reason })) user
        (record { type = cancelled_event; method = unset })

  -- `VerificationDone` behind the state: without a crypto machine no event is sent.
  unfoldable pub after_done : Reply → String → Bool → Reply
  after_done (returns s) user true = elim (x.load s user) [
    | none ↦ returns s
    | some v ↦ returns (
        x.store s user (record v {
          sent = v.sent ++ (record { type = done_event; method = unset }) ∷ [];
          invalidated = true;
          seen_as_verified = false;
        }))
  ]
  after_done r user machine = r

  unfoldable pub verification_done : Sessions → String → Bool → Reply
  unfolding after_done compute_ui
  verification_done s user machine =
      after_done (compute_ui s user (λ ui. record ui { done = true })) user machine

  unfoldable pub show_sas : Sessions → String → List String → List String → List ℕ → Reply
  unfolding broadcast_after compute_ui with_descriptions three
  show_sas s user emojis descriptions decimals =
      broadcast_after
        (compute_ui s user (λ ui. record ui {
          emojis = with_descriptions emojis descriptions;
          decimals = three decimals;
          sas_active = true;
        }))
        user (record { type = show_sas_event; method = unset })

  unfoldable pub qr_code_scanned : Sessions → String → Reply
  unfolding broadcast_after compute_ui
  qr_code_scanned s user =
      broadcast_after (compute_ui s user (λ ui. record ui { qr_scanned = true })) user
        (record { type = qr_scanned_event; method = unset })
