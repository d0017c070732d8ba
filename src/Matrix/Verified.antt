-- ===== src/Matrix/Verified.antt =====
-- internal/matrix/session.go, `IsVerified` and `WaitUntilVerified`: whether this device is trusted,
-- remembered in `seenAsVerified` and in a cache of thirty minutes. What the crypto machine answers
-- is an argument, and the level from which on a device is trusted, mautrix's
-- `TrustStateCrossSignedTOFU`, is a parameter.
pub mod Laws
mod Tests
use arko.Base.{ℕ, String, ◌+s◌, Bool, true, false, not, ◌&&◌, List, [], ◌∷◌, leb, if◌then◌else◌}
use arko.Base.SyncMap.{SyncMap}
use arko.Cache
use arko.Cache.{Cache, Fetched, ok, err, GetResult, value, failed, panic, blocked, refresh}

-- Of a device, whether the pointer is one, and of the trust its level.
pub record Answers : Type 0 where
  pub machine : Bool
  pub device : Fetched Bool
  pub trust : Fetched ℕ

-- How a wait ends.
pub data Waited : Type 0 where
  verified stopped waiting crashed : Waited

-- What wakes the wait: the end of its context, or a signal or the ticker, at an instant and with
-- the answers that the check gets.
pub data Wake : Type 0 where
  cancelled : Wake
  woken : ℕ → Answers → Wake

-- Two parts of a goroutine that looks anew at a cached answer, a call of `IsVerified`, what
-- `VerificationDone` does to the device, and the handler of the cross-signing keys.
pub data Step : Type 0 where
  asks lands : ℕ → Answers → Step
  starts is_done : Step
  signs : Answers → Bool → Step

-- What is known before the wake-ups alone decide: the first one that says something.
unfoldable pub first_of : (Answers → Bool) → List Wake → Waited
first_of trusted [] = waiting
first_of trusted (cancelled ∷ ws) = stopped
first_of trusted (woken now a ∷ ws) = if trusted a then verified else first_of trusted ws

module _ ⦃x : SyncMap⦄ where
  pub record Device : Type 0 where
    pub seen_as_verified : Bool
    pub verified_cache : Cache Bool

abbrev pub verified_key : String → String
verified_key user = "iv:" +s user

-- The value of a check whose error is dropped.
unfoldable pub verdict : Fetched Bool → Bool
verdict (ok b) = b
verdict (err e) = false

unfoldable pub without_error : GetResult Bool → GetResult Bool
without_error (failed e) = value false
without_error r = r

module _ (cross_signed_tofu : ℕ) where
  unfoldable pub check_trust : Fetched ℕ → Fetched Bool
  check_trust (err e) = err e
  check_trust (ok trust) =
      if leb cross_signed_tofu trust then ok true else err "trust is not considered valid"

  -- The error of a device that is nil without one is nil.
  unfoldable pub check_device : Fetched Bool → Fetched ℕ → Fetched Bool
  unfolding check_trust
  check_device (err e) trust = err e
  check_device (ok false) trust = ok false
  check_device (ok true) trust = check_trust trust

  unfoldable pub check : Answers → Fetched Bool
  unfolding check_device
  check a = if a.machine then check_device a.device a.trust else err "machine is nil"

  module _ ⦃x : SyncMap⦄ (user : String) where
    unfoldable pub cached : Device → ℕ → Answers → GetResult Bool × Device
    unfolding without_error check
    cached d now a =
        let (r, c, stale) = Cache.get d.verified_cache (verified_key user) now (check a) in
        (without_error r, record d { verified_cache = c })

    unfoldable pub is_verified : Device → ℕ → Answers → GetResult Bool × Device
    unfolding cached verdict check
    is_verified d now a =
        if d.seen_as_verified
        then cached d now a
        else (value (verdict (check a)), record d { seen_as_verified = verdict (check a) })

    -- The loop of `WaitUntilVerified`.
    unfoldable pub wake : Waited × Device → GetResult Bool × Device → Waited × Device
    wake later (value b, d) = if b then (verified, d) else later
    wake later (r, d) = (crashed, d)

    unfoldable pub wait : Device → List Wake → Waited × Device
    unfolding wake is_verified
    wait d [] = (waiting, d)
    wait d (cancelled ∷ ws) = (stopped, d)
    wait d (woken now a ∷ ws) =
        let later = wait (is_verified d now a).1 ws in wake later (is_verified d now a)

    unfoldable pub wait_until_verified : Device → ℕ → Answers → List Wake → Waited × Device
    unfolding wait
    wait_until_verified d now a ws = wait d (woken now a ∷ ws)

    -- The handler of the cross-signing keys: whether it signals the wait. `signed` is whether
    -- `SignOwnDevice` succeeds.
    unfoldable pub cross_signing_arrived : Device → Answers → Bool → Device × Bool
    unfolding verdict
    cross_signing_arrived d a signed =
        if a.machine && verdict a.device && signed
        then (
          record d { verified_cache = Cache.invalidate d.verified_cache (verified_key user) },
          true,
        )
        else (d, false)

    -- A goroutine that looks anew enters the flight of its key; it lands with what the check says.
    unfoldable pub step : Device → Step → Device
    unfolding is_verified cross_signing_arrived
    step d is_done = record d {
      verified_cache = Cache.invalidate d.verified_cache (verified_key user);
      seen_as_verified = false;
    }
    step d (signs a signed) = (cross_signing_arrived d a signed).0
    step d (asks now a) = (is_verified d now a).1
    step d starts = record d {
      verified_cache = (Cache.enter d.verified_cache (verified_key user) refresh).0;
    }
    step d (lands now a) = record d {
      verified_cache = (Cache.land d.verified_cache (verified_key user) now refresh (check a)).0;
    }

    -- The answers of the calls of `IsVerified`.
    unfoldable pub answers : Device → List Step → List (GetResult Bool)
    unfolding step is_verified
    answers d [] = []
    answers d (asks now a ∷ ss) = (is_verified d now a).0 ∷ answers (step d (asks now a)) ss
    answers d (s ∷ ss) = answers (step d s) ss
