-- ===== src/Handlers/Verify.antt =====
-- internal/handlers/verify.go, verify_sas.go, verify_qr.go and verify_choose.go: the pages on which
-- a device is verified. A handler redirects, renders its page or answers with an error. That the
-- rendering itself succeeds is assumed, and that the user has a session, without which most
-- handlers dereference a nil state.
use arko.Base.{ℕ, zero, suc, Bool, true, false, not, List, [], ◌∷◌, is_some, if◌then◌else◌}
use arko.Matrix.Verification.{VerificationUiState, VerificationEmoji, clear}

pub data Page : Type 0 where
  home verify waiting choose sas_page sas_waiting qr_page qr_scanned_page : Page

pub data Response : Type 0 where
  redirect rendered : Page → Response
  server_error : Response

-- What the handlers ask of the services: `IsVerified`, `HasCrossSigningKeys`, whether
-- `GetCurrentUser` succeeds, and whether the image of a QR code that is there is drawn.
pub record Facts : Type 0 where
  pub verified : Bool
  pub has_keys : Bool
  pub has_user : Bool
  pub draws : Bool

abbrev pub any_emoji : List VerificationEmoji → Bool
any_emoji [] = false
any_emoji (e ∷ es) = true

abbrev pub is_redirect : Response → Bool
is_redirect (redirect p) = true
is_redirect _ = false

module _ (f : Facts) where
  -- A page behind `GetCurrentUser`.
  abbrev show : Page → Response
  show p = if f.has_user then rendered p else server_error

  -- Behind the test of the current user: `GetQRCodeSVG`.
  abbrev show_qr : VerificationUiState → Response
  show_qr ui =
      if f.has_user
      then (if is_some ui.qr_code
          then (if f.draws then rendered qr_page else server_error)
          else server_error)
      else server_error

  unfoldable pub handle_verify_page : VerificationUiState → Response × VerificationUiState
  handle_verify_page ui =
      if f.verified
      then (redirect home, ui)
      else if not f.has_keys
      then (redirect waiting, ui)
      else if ui.cancelled
      then (redirect choose, clear ui)
      else if any_emoji ui.emojis
      then (redirect sas_page, ui)
      else if ui.sas_active
      then (redirect sas_waiting, ui)
      else if ui.qr_scanned
      then (redirect qr_scanned_page, ui)
      else if ui.qr_active
      then (redirect qr_page, ui)
      else (redirect choose, ui)

  unfoldable pub handle_verify_waiting_page : VerificationUiState → Response × VerificationUiState
  handle_verify_waiting_page ui =
      if f.verified
      then (redirect home, ui)
      else if f.has_keys
      then (redirect choose, ui)
      else (show waiting, ui)

  unfoldable pub handle_verify_choose_page : VerificationUiState → Response × VerificationUiState
  handle_verify_choose_page ui =
      if f.verified
      then (redirect home, ui)
      else if not f.has_keys
      then (redirect verify, ui)
      else (show choose, ui)

  unfoldable pub handle_verify_sas_page : VerificationUiState → Response × VerificationUiState
  handle_verify_sas_page ui =
      if f.verified
      then (redirect home, ui)
      else if not f.has_keys
      then (redirect verify, ui)
      else if not (any_emoji ui.emojis)
      then (redirect sas_waiting, ui)
      else if ui.cancelled
      then (redirect verify, clear ui)
      else (show sas_page, ui)

  unfoldable pub handle_verify_sas_waiting_page :
      VerificationUiState → Response × VerificationUiState
  handle_verify_sas_waiting_page ui =
      if f.verified
      then (redirect home, ui)
      else if not f.has_keys
      then (redirect waiting, ui)
      else if ui.cancelled
      then (redirect choose, clear ui)
      else if any_emoji ui.emojis
      then (redirect sas_page, ui)
      else (show sas_waiting, ui)

  unfoldable pub handle_verify_qr_page : VerificationUiState → Response × VerificationUiState
  handle_verify_qr_page ui =
      if f.verified
      then (redirect home, ui)
      else if not f.has_keys
      then (redirect verify, ui)
      else if ui.cancelled
      then (redirect choose, clear ui)
      else if ui.qr_scanned
      then (redirect qr_scanned_page, ui)
      else (show_qr ui, ui)

  unfoldable pub handle_verify_qr_scanned_page :
      VerificationUiState → Response × VerificationUiState
  handle_verify_qr_scanned_page ui =
      if f.verified
      then (redirect home, ui)
      else if ui.cancelled
      then (redirect choose, clear ui)
      else if not ui.qr_scanned
      then (redirect qr_page, ui)
      else (show qr_scanned_page, ui)

  unfoldable pub handle_verify_qr_status : VerificationUiState → Response × VerificationUiState
  handle_verify_qr_status ui =
      if f.verified
      then (redirect home, ui)
      else if ui.cancelled
      then (redirect choose, clear ui)
      else if not f.has_user
      then (server_error, ui)
      else if ui.qr_scanned
      then (rendered qr_scanned_page, ui)
      else (show_qr ui, ui)

  -- The router; the home page is not followed further.
  unfoldable pub visit : Page → VerificationUiState → Response × VerificationUiState
  visit home ui = (rendered home, ui)
  visit verify ui = handle_verify_page ui
  visit waiting ui = handle_verify_waiting_page ui
  visit choose ui = handle_verify_choose_page ui
  visit sas_page ui = handle_verify_sas_page ui
  visit sas_waiting ui = handle_verify_sas_waiting_page ui
  visit qr_page ui = handle_verify_qr_page ui
  visit qr_scanned_page ui = handle_verify_qr_scanned_page ui

  -- A browser that follows redirects, `n` at most.
  unfoldable pub after : ℕ → Response × VerificationUiState → Response × VerificationUiState
  after zero r = r
  after (suc n) (redirect p, ui) = after n (visit p ui)
  after (suc n) (rendered p, ui) = (rendered p, ui)
  after (suc n) (server_error, ui) = (server_error, ui)

  unfoldable pub browse : Page → VerificationUiState → Response × VerificationUiState
  browse p ui = after 4 (visit p ui)
