-- ===== src/Handlers/Watch/Laws.antt =====
-- How often the browsers of a user are redirected.
use mathlib.Core.List.{append-nil, append_assoc}
use arko.Base.{
  ℕ, zero, suc, ◌+◌, ◌≤◌, ◌<◌, String, Bool, true, false, ◌≡◌, refl, ap, ◌∙◌, sym, some, List, [],
  ◌∷◌, ◌++◌, eq_iff, length, map, All, arith, length-append,
}
use arko.Base.Assoc.{lookup}
use arko.Hub.{Client, Hub, send, push}
use arko.Matrix.Verification.{VerificationEvent}
use arko.Handlers.Watch.{
  Watcher, verification_event_to_ws, broadcast_verification_event, push_event, drain, drain_all,
}

-- `n` sends of one message to a client.
abbrev pub sends : Bool → ℕ → String → Client → Client
sends pick zero msg c = c
sends pick (suc n) msg c = sends pick n msg (send pick c msg).0

abbrev pub copies : ℕ → String → List String
copies zero msg = []
copies (suc n) msg = msg ∷ copies n msg

append_copies :
    (q : List String) (n : ℕ) (msg : String)
    → (q ++ msg ∷ []) ++ copies n msg ≡ q ++ copies (suc n) msg
append_copies q n msg = simp (append_assoc)

send_open :
    (pick : Bool) (msg : String) (c : Client)
    → c.closed ≡ false
    → length c.queue < 256
    → (send pick c msg).0 ≡ record c { queue = c.queue ++ msg ∷ [] }
unfolding send
send_open pick msg c o l = ground arith

-- A client that is open and has room for all of them gets every one.
sends-queue :
    (pick : Bool) (n : ℕ) (msg : String) (c : Client)
    → c.closed ≡ false
    → length c.queue + n ≤ 256
    → sends pick n msg c ≡ record c { queue = c.queue ++ copies n msg }
sends-queue pick zero msg c o l = ap (λ q. record c { queue = q }) (sym (append-nil c.queue))
sends-queue pick (suc n) msg c o l =
    ap (sends pick n msg) (send_open pick msg c o (omega arith))
    ∙ sends-queue pick n msg (record c { queue = c.queue ++ msg ∷ [] }) o
        (omega (arith, length-append c.queue (msg ∷ [])))
    ∙ ap (λ q. record c { queue = q }) (append_copies c.queue n msg)

lookup-push :
    (pick : Bool) (h : Hub) (user msg : String) (b : List Client)
    → lookup user h ≡ some b
    → lookup user (push pick h user msg) ≡ some (map (λ c. (send pick c msg).0) b)
unfolding lookup push
lookup-push pick [] user msg b e = ground arith
lookup-push pick (x ∷ h) user msg b e =
    ground (arith, lookup-push pick h user msg b, eq_iff x.0 user, eq_iff user x.0)

abbrev pushes : Bool → ℕ → Hub → String → String → Hub
pushes pick zero h user msg = h
pushes pick (suc n) h user msg = pushes pick n (push pick h user msg) user msg

map-map : (f g : Client → Client) (b : List Client) → map f (map g b) ≡ map (λ c. f (g c)) b
map-map f g [] = refl
map-map f g (c ∷ b) = ap (λ r. f (g c) ∷ r) (map-map f g b)

map-same : (b : List Client) → b ≡ map (λ c. c) b
map-same [] = refl
map-same (c ∷ b) = ap (λ r. c ∷ r) (map-same b)

lookup-pushes :
    (pick : Bool) (n : ℕ) (h : Hub) (user msg : String) (b : List Client)
    → lookup user h ≡ some b
    → lookup user (pushes pick n h user msg) ≡ some (map (sends pick n msg) b)
lookup-pushes pick zero h user msg b e = e ∙ ap some (map-same b)
lookup-pushes pick (suc n) h user msg b e =
    lookup-pushes pick n (push pick h user msg) user msg (map (λ c. (send pick c msg).0) b)
      (lookup-push pick h user msg b e)
    ∙ ap some (map-map (sends pick n msg) (λ c. (send pick c msg).0) b)

-- The watchers of a user with one event each.
abbrev HasOne : String → VerificationEvent → List Watcher → Type 0
HasOne user ev ws = All (λ w. (w.user_id ≡ user) × (w.queue ≡ ev ∷ [])) ws

push_event-redirects :
    (pick : Bool) (h : Hub) (user msg : String) (ev : VerificationEvent)
    → verification_event_to_ws ev ≡ some msg
    → push_event pick h user ev ≡ push pick h user msg
unfolding push_event
push_event-redirects pick h user msg ev e = ground arith

drain_all-pushes :
    (pick : Bool) (h : Hub) (user msg : String) (ev : VerificationEvent) (ws : List Watcher)
    → verification_event_to_ws ev ≡ some msg
    → HasOne user ev ws
    → (drain_all pick h ws).0 ≡ pushes pick (length ws) h user msg
unfolding drain_all drain
drain_all-pushes pick h user msg ev [] e a = refl
drain_all-pushes pick h user msg ev (w ∷ ws) e a =
    rw (a.0.1, a.0.0, push_event-redirects pick h user msg ev e)
      (drain_all-pushes pick (push pick h user msg) user msg ev ws e a.1)

broadcast_idle :
    (user : String) (ev : VerificationEvent) (ws : List Watcher)
    → All (λ w. (w.user_id ≡ user) × (w.queue ≡ [])) ws
    → ((broadcast_verification_event ev ws).1 ≡ true)
      × HasOne user ev (broadcast_verification_event ev ws).0
      × (length (broadcast_verification_event ev ws).0 ≡ length ws)
unfolding broadcast_verification_event
broadcast_idle user ev [] a = (refl, tt, refl)
broadcast_idle user ev (w ∷ ws) a =
    let h = broadcast_idle user ev ws a.1 in rw a.0.1 (h.0, ((a.0.0, refl), h.1), ap suc h.2)

-- Of a user who has several websockets, each with its goroutine idle, an event of the verification
-- that redirects goes to every goroutine, and each goroutine redirects every browser of the user: a
-- browser that is open and has room is sent the redirect as often as there are websockets.
pub broadcast-drain_all :
    (pick : Bool) (h : Hub) (user msg : String) (ev : VerificationEvent) (b : List Client)
    (ws : List Watcher)
    → verification_event_to_ws ev ≡ some msg
    → lookup user h ≡ some b
    → All (λ w. (w.user_id ≡ user) × (w.queue ≡ [])) ws
    → ((broadcast_verification_event ev ws).1 ≡ true)
      × (lookup user (drain_all pick h (broadcast_verification_event ev ws).0).0
          ≡ some (map (sends pick (length ws) msg) b))
      × ((c : Client)
          → c.closed ≡ false
          → length c.queue + length ws ≤ 256
          → sends pick (length ws) msg c ≡ record c { queue = c.queue ++ copies (length ws) msg })
broadcast-drain_all pick h user msg ev b ws e l a =
    let (done, one, count) = broadcast_idle user ev ws a in
    (
      done,
      ap (lookup user)
            (drain_all-pushes pick h user msg ev (broadcast_verification_event ev ws).0 e one)
          ∙ rw count (lookup-pushes pick (length ws) h user msg b l),
      λ c o s. sends-queue pick (length ws) msg c o s,
    )
