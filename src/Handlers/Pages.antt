-- ===== src/Handlers/Pages.antt =====
-- Where the redirects of the verification pages end.
use arko.Base.{true, false, ◌≡◌, refl, none, List, ◌∷◌, arith}
use arko.Matrix.Verification.{VerificationUiState, VerificationEmoji, clear, zero_ui}
use arko.Handlers.Verify.{
  Page, home, verify, waiting, choose, sas_page, sas_waiting, qr_page, qr_scanned_page, rendered,
  server_error, Facts, visit, after, browse, is_redirect, handle_verify_page,
  handle_verify_waiting_page, handle_verify_choose_page, handle_verify_sas_page,
  handle_verify_sas_waiting_page, handle_verify_qr_page, handle_verify_qr_scanned_page,
}

-- From each page of `Page`, which are the verification pages but the one for a recovery key, of a
-- user who has a session, in every state of its verification: four redirects at most lead to a page
-- or an error.
pub browse_ends :
    (f : Facts) (p : Page) (ui : VerificationUiState) → is_redirect (browse f p ui).0 ≡ false
unfolding browse after visit handle_verify_page handle_verify_waiting_page handle_verify_choose_page
    handle_verify_sas_page handle_verify_sas_waiting_page handle_verify_qr_page
    handle_verify_qr_scanned_page clear
browse_ends f home ui = refl
browse_ends f choose ui = ground arith
browse_ends f waiting ui = ground arith
browse_ends f sas_waiting ui = ground arith
browse_ends f verify ui = ground arith
browse_ends f sas_page ui = ground arith
browse_ends f qr_page ui = ground arith
browse_ends f qr_scanned_page ui = ground arith

-- On a device that is not verified, for a user who is known, `/verify` leads without cross-signing
-- keys to the waiting page; with them to the choice from a state that is fresh or cancelled, which
-- is then cleared, and to the emojis where they are there and nothing was cancelled.
pub browse_verify :
    (f : Facts) (ui : VerificationUiState)
    → f.verified ≡ false
    → f.has_user ≡ true
    → (f.has_keys ≡ false → browse f verify ui ≡ (rendered waiting, ui))
      × (f.has_keys ≡ true → ui.cancelled ≡ true → browse f verify ui ≡ (rendered choose, clear ui))
      × (f.has_keys ≡ true → browse f verify zero_ui ≡ (rendered choose, zero_ui))
      × ((e : VerificationEmoji) (es : List VerificationEmoji)
          → f.has_keys ≡ true
          → ui.cancelled ≡ false
          → ui.emojis ≡ e ∷ es
          → browse f verify ui ≡ (rendered sas_page, ui))
unfolding browse after visit handle_verify_page handle_verify_waiting_page handle_verify_choose_page
    handle_verify_sas_page
browse_verify f ui v u =
    (λ h. ground arith, (λ h c. ground arith), (λ h. ground arith), λ e es h c m. ground arith)

-- On a device that has keys and is not verified, the page to which the start of a QR verification
-- leads is an error as long as nothing was cancelled or scanned and there is no code.
pub qr_page_fails :
    (f : Facts) (ui : VerificationUiState)
    → f.verified ≡ false
    → f.has_keys ≡ true
    → ui.cancelled ≡ false
    → ui.qr_scanned ≡ false
    → ui.qr_code ≡ none
    → browse f qr_page (record ui { qr_active = true })
      ≡ (server_error, record ui { qr_active = true })
unfolding browse after visit handle_verify_qr_page
qr_page_fails f ui v k c s q = ground arith
