-- ===== src/Matrix/Verification/Laws.antt =====
-- Verification: what the store of transactions keeps, and calls of a user whose session is gone.
use arko.Base.{String, Bool, true, false, ◌≡◌, none, some, arith, ◌==◌, eq_refl, if◌then◌else◌}
use arko.Base.SyncMap.{SyncMap}
use arko.Matrix.Verification.{
  Verifying, Sessions, Transaction, TxnStore, save_verification_transaction, delete_verification,
  get_verification_transaction,
}
use arko.Matrix.Verification.Calls.{
  crashed, compute_ui, request, request_sas_verification, request_qr_verification,
  clear_verification_state, broadcast_after, verification_cancelled, after_done, verification_done,
  qr_code_scanned,
}

module _ ⦃x : SyncMap⦄ where
  -- After a transaction is saved and then deleted, which reports success, a lookup by its id still
  -- gives it, and lookups by other ids are as before.
  pub get-delete_verification :
      (s : TxnStore) (t : Transaction) (id : String)
      → let r = delete_verification (save_verification_transaction s t) t.transaction_id in
        (r.1 ≡ true)
        × (get_verification_transaction r.0 id
            ≡ (if t.transaction_id == id then some t else get_verification_transaction s id))
  unfolding delete_verification save_verification_transaction get_verification_transaction
  get-delete_verification s t id = ground (
    arith,
    x.load-store s.txns t.transaction_id id t,
    x.load-store s.txns t.transaction_id t.transaction_id t,
    eq_refl t.transaction_id,
  )

  -- For a user without a session, as after a logout, the callbacks for a cancelled, a done and a
  -- scanned verification panic, and so does the call that clears the state; and a request panics
  -- whose user has a session when it begins and none when mautrix has answered.
  pub cancelled_panics :
      (s before : Sessions) (user reason : String) (machine : Bool) (v : Verifying)
      → x.load s user ≡ none
      → x.load before user ≡ some v
      → (verification_cancelled s user reason ≡ crashed)
        × (verification_done s user machine ≡ crashed)
        × (qr_code_scanned s user ≡ crashed)
        × (clear_verification_state s user ≡ crashed)
        × (request_sas_verification before s user true ≡ crashed)
        × (request_qr_verification before s user true ≡ crashed)
  unfolding verification_cancelled verification_done qr_code_scanned clear_verification_state
      request_sas_verification request_qr_verification request broadcast_after after_done compute_ui
  cancelled_panics s before user reason true v h k = ground arith
  cancelled_panics s before user reason false v h k = ground arith
