-- ===== src/Matrix/Verified/Laws.antt =====
-- How long a device counts as verified, and when the wait for it ends.
use mathlib.Core.Path.{subst}
use arko.Base.{
  sym, ℕ, String, Bool, true, false, ◌≡◌, refl, ap, ◌∙◌, some, List, [], ◌∷◌, ◌++◌, All, arith,
  if◌then◌else◌, eq_refl,
}
use arko.Base.SyncMap.{SyncMap}
use arko.Cache.{Entry, Fetched, ok, err, value, refresh, land, put}
use arko.Cache.Laws.{get_hit, enter-entries}
use arko.Matrix.Verified.{
  Answers, Waited, verified, Wake, cancelled, woken, Step, asks, lands, starts, is_done, signs,
  Device, check, check_device, check_trust, verdict, without_error, verified_key, cached,
  is_verified, wake, wait, wait_until_verified, step, answers, first_of,
}

module _ (cross_signed_tofu : ℕ) where
  abbrev pub trusts : Answers → Bool
  trusts a = verdict (check cross_signed_tofu a)

  module _ ⦃x : SyncMap⦄ (user : String) where
    -- The cache says that the device is verified.
    abbrev pub IsKept : Device → Type 0
    IsKept d =
        (d.seen_as_verified ≡ true)
        × ((e : Entry Bool) × (x.load d.verified_cache.entries (verified_key user) ≡ some e)
            × (e.value ≡ true))

    -- A check that found out whether there is a device: a pointer that is nil comes with an error.
    abbrev pub IsTold : Answers → Type 0
    IsTold a = a.device ≡ ok false → ⊥

    -- A step that neither ends a verification nor handles cross-signing keys, and whose check found
    -- that out.
    abbrev pub TellsStep : Step → Type 0
    TellsStep (asks now a) = IsTold a
    TellsStep (lands now a) = IsTold a
    TellsStep starts = Unit
    TellsStep is_done = ⊥
    TellsStep (signs a signed) = ⊥

    check-true : (a : Answers) (b : Bool) → IsTold a → check cross_signed_tofu a ≡ ok b → b ≡ true
    unfolding check check_device check_trust
    check-true a b t h = ground arith

    asks_kept :
        (d : Device) (now : ℕ) (a : Answers)
        → IsKept d
        → is_verified cross_signed_tofu user d now a ≡ (value true, d)
    unfolding is_verified cached without_error
    asks_kept d now a (s, (e, l, v)) =
        let h = get_hit d.verified_cache (verified_key user) now (check cross_signed_tofu a) e l in
        rw (s, h, v) refl

    starts-IsKept : (d : Device) → IsKept d → IsKept (step cross_signed_tofu user d starts)
    unfolding step
    starts-IsKept d (s, (e, l, v)) =
        (s, (e, rw (enter-entries d.verified_cache (verified_key user) refresh) l, v))

    lands-IsKept :
        (d : Device) (now : ℕ) (a : Answers) (r : Fetched Bool)
        → ((b : Bool) → r ≡ ok b → b ≡ true)
        → IsKept d
        → IsKept (record d {
          verified_cache = (land d.verified_cache (verified_key user) now refresh r).0;
        })
    unfolding land put
    lands-IsKept d now a (err m) t k = k
    lands-IsKept d now a (ok b) t (s, (e, l, v)) =
        (s, (record { value = b; fetched_at = now }, rw (x.load-store, eq_refl) refl, t b refl))

    step-IsKept :
        (d : Device) (s : Step) → IsKept d → TellsStep s → IsKept (step cross_signed_tofu user d s)
    unfolding step
    step-IsKept d (asks now a) k t = subst IsKept (sym (ap (λ r. r.1) (asks_kept d now a k))) k
    step-IsKept d (lands now a) k t =
        lands-IsKept d now a (check cross_signed_tofu a) (λ b. check-true a b t) k
    step-IsKept d starts k t = starts-IsKept d k
    step-IsKept d is_done k t = absurd t
    step-IsKept d (signs a signed) k t = absurd t

    -- A device that was seen as verified and is kept as verified in the cache counts as verified as
    -- long as no verification ends and no cross-signing keys arrive: whatever the checks say from
    -- then on, at whatever instants, and however the calls and the goroutines that look anew come
    -- between each other, every call answers yes. The condition: no lookup of the device answers
    -- with a nil pointer and no error.
    pub answers-kept :
        (d : Device) (ss : List Step)
        → IsKept d
        → All TellsStep ss
        → All (λ r. r ≡ value true) (answers cross_signed_tofu user d ss)
    unfolding answers
    answers-kept d [] k t = tt
    answers-kept d (asks now a ∷ ss) k t = (
      ap (λ r. r.0) (asks_kept d now a k),
      answers-kept (step cross_signed_tofu user d (asks now a)) ss
          (step-IsKept d (asks now a) k t.0) t.1,
    )
    answers-kept d (lands now a ∷ ss) k t =
        answers-kept (step cross_signed_tofu user d (lands now a)) ss
          (step-IsKept d (lands now a) k t.0) t.1
    answers-kept d (starts ∷ ss) k t =
        answers-kept (step cross_signed_tofu user d starts) ss (step-IsKept d starts k t.0) t.1
    answers-kept d (is_done ∷ ss) k t = absurd t.0
    answers-kept d (signs a signed ∷ ss) k t = absurd t.0

    asks_unseen :
        (d : Device) (now : ℕ) (a : Answers)
        → d.seen_as_verified ≡ false
        → is_verified cross_signed_tofu user d now a
          ≡ (value (trusts a), record d { seen_as_verified = trusts a })
    unfolding is_verified
    asks_unseen d now a h = rw h refl

    wake_lem :
        (later : Waited × Device) (b : Bool) (d : Device)
        → (wake cross_signed_tofu user later (value b, d)).0 ≡ (if b then verified else later.0)
    unfolding wake
    wake_lem later true d = refl
    wake_lem later false d = refl

    wake_later :
        (b : Bool) (d : Device) (ws : List Wake) (w : Waited)
        → ((wait cross_signed_tofu user (record d { seen_as_verified = false }) ws).0 ≡ w)
        → (if b
            then verified
            else (wait cross_signed_tofu user (record d { seen_as_verified = b }) ws).0)
          ≡ (if b then verified else w)
    wake_later true d ws w h = refl
    wake_later false d ws w h = h

    -- Where the device has not been seen as verified, the wait ends with the first wake-up that
    -- says something: it returns when a check trusts the device, stops when its context is
    -- cancelled before, and goes on waiting otherwise.
    pub wait_lem :
        (d : Device) (ws : List Wake)
        → d.seen_as_verified ≡ false
        → (wait cross_signed_tofu user d ws).0 ≡ first_of trusts ws
    unfolding wait first_of
    wait_lem d [] h = refl
    wait_lem d (cancelled ∷ ws) h = refl
    wait_lem d (woken now a ∷ ws) h =
        ap (λ r. (wake cross_signed_tofu user (wait cross_signed_tofu user r.1 ws) r).0)
          (asks_unseen d now a h)
        ∙ wake_lem (wait cross_signed_tofu user (record d { seen_as_verified = trusts a }) ws)
            (trusts a) (record d { seen_as_verified = trusts a })
        ∙ wake_later (trusts a) d ws (first_of trusts ws)
            (wait_lem (record d { seen_as_verified = false }) ws refl)

    first_of-append :
        (pre post : List Wake) (now : ℕ) (a : Answers)
        → All (λ w. w ≡ cancelled → ⊥) pre
        → trusts a ≡ true
        → first_of trusts (pre ++ woken now a ∷ post) ≡ verified
    unfolding first_of
    first_of-append [] post now a h t = rw t refl
    first_of-append (cancelled ∷ pre) post now a h t = absurd (h.0 refl)
    first_of-append (woken n c ∷ pre) post now a h t =
        ground (arith, first_of-append pre post now a h.1 t)

    -- A device that has not been seen as verified and becomes trusted: the call waits for any
    -- number of wake-ups, whatever their checks say, and returns without an error at the latest at
    -- the one that trusts the device, unless its context is cancelled before.
    pub wait_until_verified-returns :
        (d : Device) (n now : ℕ) (first a : Answers) (pre post : List Wake)
        → d.seen_as_verified ≡ false
        → All (λ w. w ≡ cancelled → ⊥) pre
        → trusts a ≡ true
        → (wait_until_verified cross_signed_tofu user d n first (pre ++ woken now a ∷ post)).0
          ≡ verified
    unfolding wait_until_verified
    wait_until_verified-returns d n now first a pre post h c t =
        wait_lem d (woken n first ∷ pre ++ woken now a ∷ post) h
        ∙ first_of-append (woken n first ∷ pre) post now a (no_cancel, c) t
      where
        no_cancel : woken n first ≡ cancelled → ⊥
        no_cancel e = ground arith
