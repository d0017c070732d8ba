-- ===== src/Matrix/Verified/Tests.antt =====
-- A device on concrete inputs; levels from 3 on are trusted.
use arko.Base.{◌≡◌, refl, true, false, [], ◌∷◌, All, arith}
use arko.Base.Assoc.{lookup}
use arko.Base.SyncMap
use arko.Base.SyncMap.{SyncMap}
use arko.Cache.{ok, value}
use arko.Matrix.Verified.{
  Answers, Device, asks, lands, starts, answers, verified, woken, cancelled, wait, first_of,
  wait_until_verified, check, check_device, check_trust, verdict,
}
use arko.Matrix.Verified.Laws.{trusts, wait_lem, answers-kept, wait_until_verified-returns}

instance abbrev map_listed : SyncMap
map_listed = SyncMap.listed

abbrev trusted : Answers
trusted = record { machine = true; device = ok true; trust = ok 4 }

abbrev distrusted : Answers
distrusted = record trusted { trust = ok 1 }

abbrev kept : Device
kept = record {
  seen_as_verified = true;
  verified_cache = record {
    entries = ("iv:@ann", record { value = true; fetched_at = 0 }) ∷ [];
    ttl = 9;
    flights = [];
  };
}

told : (ok true ≡ ok false) → ⊥
told e = ground arith

answers-kept_example :
    All
      (λ r. r ≡ value true)
      (answers 3 "@ann" kept
        (asks 5 distrusted ∷ starts ∷ lands 20 distrusted ∷ asks 99 distrusted ∷ []))
unfolding lookup
answers-kept_example =
    answers-kept 3 "@ann" kept
      (asks 5 distrusted ∷ starts ∷ lands 20 distrusted ∷ asks 99 distrusted ∷ [])
      (refl, (record { value = true; fetched_at = 0 }, refl, refl)) (told, (tt, (told, (told, tt))))

abbrev unseen : Device
unseen = record kept { seen_as_verified = false }

wait_until_verified-returns_example :
    (wait_until_verified 3 "@ann" unseen 1 distrusted (woken 2 distrusted ∷ woken 3 trusted ∷ [])).0
    ≡ verified
unfolding check check_device check_trust verdict
wait_until_verified-returns_example =
    wait_until_verified-returns 3 "@ann" unseen 1 3 distrusted trusted (woken 2 distrusted ∷ []) []
      refl ((λ e. ground arith), tt) refl

wait_lem_example :
    (wait 3 "@ann" unseen (woken 2 distrusted ∷ cancelled ∷ woken 3 trusted ∷ [])).0
    ≡ first_of (trusts 3) (woken 2 distrusted ∷ cancelled ∷ woken 3 trusted ∷ [])
wait_lem_example =
    wait_lem 3 "@ann" unseen (woken 2 distrusted ∷ cancelled ∷ woken 3 trusted ∷ []) refl
