-- ===== src/Matrix/Manager/Run.antt =====
-- What holds of the sessions after any sequence of operations.
use arko.Base.{
  ℕ, ◌≤◌, ◌<◌, String, true, false, ◌≡◌, refl, sym, ◌∙◌, ◌⊎◌, inl, inr, Option, none, some, List,
  [], ◌∷◌, ◌==◌, arith, eq_refl, eqb, ne_of-test,
}
use arko.Base.Assoc.{lookup, remove, lookup-remove}
use arko.Session
use arko.Session.{Session, GlobalSettings, Store}
use arko.Session.External.{Keyring, Json}
use arko.Matrix.Manager.{
  Manager, MatrixSession, LoginAnswers, RestoreAnswers, ok, panic, restore_session, login, logout,
  logout_of, set_recovery_key, get_recovery_key, get_current_user_id,
}
use arko.Matrix.Manager.Laws.{is_in, is_running, Extends, restore_session-Extends, login-Extends}

-- A login, a restart of a stored session, a logout, and a change and a read of the recovery key:
-- what happens until the program ends with `Shutdown`.
pub data Op : Type 0 where
  logs_in : LoginAnswers → Op
  restores : Session → RestoreAnswers → Op
  logs_out : String → Op
  keeps_key : String → String → Op
  reads_key : String → Op

module _ ⦃k : Keyring⦄ ⦃sessions : Json Session⦄ ⦃settings : Json GlobalSettings⦄
    ⦃users : Json (List String)⦄ where
  unfoldable pub step : Manager → Op → Manager
  unfolding login restore_session logout set_recovery_key get_recovery_key
  step m (logs_in a) = (login m a).0
  step m (restores sess a) = (restore_session m sess a).0
  step m (logs_out user) = (logout m user).0
  step m (keeps_key user key) = set_recovery_key m user key
  step m (reads_key user) = (get_recovery_key m user).1

  unfoldable pub run : Manager → List Op → Manager
  unfolding step
  run m [] = m
  run m (o ∷ os) = run (step m o) os

  logout_of-cancelled :
      (m : Manager) (user : String) (o : Option MatrixSession)
      → (logout_of m user o).0.cancelled ≡ m.cancelled
  unfolding logout_of
  logout_of-cancelled m user none = refl
  logout_of-cancelled m user (some s) = refl

  logout-cancelled : (m : Manager) (user : String) → (logout m user).0.cancelled ≡ true
  unfolding logout
  logout-cancelled m user = logout_of-cancelled _ user (lookup user m.matrix_sessions)

  step-cancelled : (m : Manager) (o : Op) → m.cancelled ≡ true → (step m o).cancelled ≡ true
  unfolding step set_recovery_key get_recovery_key
  step-cancelled m (logs_in a) h = (login-Extends m a).1 ∙ h
  step-cancelled m (restores sess a) h = (restore_session-Extends m sess a).1 ∙ h
  step-cancelled m (logs_out user) h = logout-cancelled m user
  step-cancelled m (keeps_key user key) h = h
  step-cancelled m (reads_key user) h = h

  run-cancelled : (m : Manager) (os : List Op) → m.cancelled ≡ true → (run m os).cancelled ≡ true
  unfolding run
  run-cancelled m [] h = h
  run-cancelled m (o ∷ os) h = run-cancelled (step m o) os (step-cancelled m o h)

  -- After a logout of any user no session of the process runs: whatever follows, other logins
  -- included, the context of every session that the manager has, or that is its current one, is
  -- cancelled.
  pub logout-stops :
      (m : Manager) (user : String) (os : List Op) (s : MatrixSession)
      → is_running (run (logout m user).0 os) s ≡ false
  logout-stops m user os s = rw (run-cancelled (logout m user).0 os (logout-cancelled m user)) refl

  logout_known :
      (m : Manager) (user : String) (s : MatrixSession)
      → lookup user m.matrix_sessions ≡ some s
      → logout m user ≡ (
        record m {
          cancelled = true;
          matrix_sessions = remove user m.matrix_sessions;
          closed = s.serial ∷ m.closed;
          store = Session.delete m.store user;
        },
        ok true,
      )
  unfolding logout logout_of
  logout_known m user s h = rw h refl

  logout_unknown :
      (m : Manager) (user : String)
      → lookup user m.matrix_sessions ≡ none
      → (logout m user).1 ≡ panic
  unfolding logout logout_of
  logout_unknown m user h = rw h refl

  current_of :
      (m : Manager) (s : MatrixSession) → m.curr_session ≡ some s → get_current_user_id m ≡ s.id
  unfolding get_current_user_id
  current_of m s h = rw h refl

  eqb_refl : (n : ℕ) → eqb n n ≡ true
  eqb_refl n = ground arith

  -- A logout of the current user without an error leaves that session the current one, though it is
  -- closed and the manager has it no more; a second logout of the current user panics.
  pub logout_twice :
      (m : Manager) (s : MatrixSession)
      → m.curr_session ≡ some s
      → lookup s.id m.matrix_sessions ≡ some s
      → let n = (logout m s.id).0 in
        (get_current_user_id n ≡ s.id)
        × (is_in s.serial n.closed ≡ true)
        × (lookup s.id n.matrix_sessions ≡ none)
        × ((logout n (get_current_user_id n)).1 ≡ panic)
  logout_twice m s c h = rw (logout_known m s.id s h) (
    current_of after s c,
    rw (eqb_refl s.serial) refl,
    gone,
    rw (current_of after s c) (logout_unknown after s.id gone),
  )
    where
      after : Manager
      after = record m {
        cancelled = true;
        matrix_sessions = remove s.id m.matrix_sessions;
        closed = s.serial ∷ m.closed;
        store = Session.delete m.store s.id;
      }

      gone : lookup s.id (remove s.id m.matrix_sessions) ≡ none
      gone = lookup-remove s.id s.id m.matrix_sessions ∙ rw (eq_refl s.id) refl

  -- The numbers are new ones, no two users share a session, and no session of the manager is
  -- closed.
  pub record Sound (m : Manager) : Type 0 where
    pub older : (n : ℕ) → is_in n m.closed ≡ true → n < m.next
    pub known :
        (u : String) (s : MatrixSession) → lookup u m.matrix_sessions ≡ some s → s.serial < m.next
    pub open_ones :
        (u : String) (s : MatrixSession)
        → lookup u m.matrix_sessions ≡ some s
        → is_in s.serial m.closed ≡ false
    pub apart :
        (u v : String) (s t : MatrixSession)
        → lookup u m.matrix_sessions ≡ some s
        → lookup v m.matrix_sessions ≡ some t
        → s.serial ≡ t.serial
        → u ≡ v

  Extends-Sound : (m n : Manager) → Extends m n → Sound m → Sound n
  Extends-Sound m n (c, d, l, (w, f)) r = record {
    older = λ j h. omega (arith, r.older j (rw c at h), l);
    known = λ u s h. known u s (f u s h);
    open_ones = λ u s h. rw c (open_one u s (f u s h));
    apart = λ u v s t h i e. apart u v s t e (f u s h) (f v t i);
  }
    where
      known :
          (u : String) (s : MatrixSession)
          → (lookup u m.matrix_sessions ≡ some s)
            ⊎ ((u ≡ w) × (m.next ≤ s.serial) × (s.serial < n.next))
          → s.serial < n.next
      known u s (inl h) = omega (arith, r.known u s h, l)
      known u s (inr (e, a, b)) = b

      open_one :
          (u : String) (s : MatrixSession)
          → (lookup u m.matrix_sessions ≡ some s)
            ⊎ ((u ≡ w) × (m.next ≤ s.serial) × (s.serial < n.next))
          → is_in s.serial m.closed ≡ false
      open_one u s (inl h) = r.open_ones u s h
      open_one u s (inr (e, a, b)) = ground (arith, r.older s.serial)

      apart :
          (u v : String) (s t : MatrixSession)
          → s.serial ≡ t.serial
          → (lookup u m.matrix_sessions ≡ some s)
            ⊎ ((u ≡ w) × (m.next ≤ s.serial) × (s.serial < n.next))
          → (lookup v m.matrix_sessions ≡ some t)
            ⊎ ((v ≡ w) × (m.next ≤ t.serial) × (t.serial < n.next))
          → u ≡ v
      apart u v s t e (inl h) (inl i) = r.apart u v s t h i e
      apart u v s t e (inl h) (inr (q, a, b)) = absurd (omega (arith, r.known u s h, a, e))
      apart u v s t e (inr (q, a, b)) (inl i) = absurd (omega (arith, r.known v t i, a, e))
      apart u v s t e (inr (p, a, b)) (inr (q, c', d')) = p ∙ sym q

  logout_none-Sound : (m : Manager) (user : String) → Sound m → Sound (logout_of m user none).0
  unfolding logout_of
  logout_none-Sound m user r = r

  logout_some-Sound :
      (m : Manager) (user : String) (s : MatrixSession)
      → Sound m
      → s.serial < m.next
      → ((u : String) (t : MatrixSession)
          → lookup u m.matrix_sessions ≡ some t
          → t.serial ≡ s.serial
          → ⊥)
      → Sound (logout_of m user (some s)).0
  unfolding logout_of
  logout_some-Sound m user s r l ne = record {
    older = λ j h. ground (arith, r.older j);
    known = r.known;
    open_ones = λ u t h. ground (arith, r.open_ones u t h, ne u t h);
    apart = r.apart;
  }

  removed :
      (m : Manager) (user u : String) (s : MatrixSession)
      → lookup u (remove user m.matrix_sessions) ≡ some s
      → ((user == u) ≡ false) × (lookup u m.matrix_sessions ≡ some s)
  removed m user u s h = ground (arith, lookup-remove user u m.matrix_sessions)

  logout-Sound : (m : Manager) (user : String) → Sound m → Sound (logout m user).0
  unfolding logout
  logout-Sound m user r = go (lookup user m.matrix_sessions) refl
    where
      n : Manager
      n = record m { cancelled = true; matrix_sessions = remove user m.matrix_sessions }

      others : Sound n
      others = record {
        older = r.older;
        known = λ u s h. r.known u s (removed m user u s h).1;
        open_ones = λ u s h. r.open_ones u s (removed m user u s h).1;
        apart = λ u v s t h i. r.apart u v s t (removed m user u s h).1 (removed m user v t i).1;
      }

      go :
          (o : Option MatrixSession)
          → lookup user m.matrix_sessions ≡ o
          → Sound (logout_of n user o).0
      go none e = logout_none-Sound n user others
      go (some s) e = logout_some-Sound n user s others (r.known user s e) λ u t h. λ q.
          ne_of-test user u (removed m user u t h).0
            (r.apart user u s t e (removed m user u t h).1 (sym q))

  step-Sound : (m : Manager) (o : Op) → Sound m → Sound (step m o)
  unfolding step set_recovery_key get_recovery_key
  step-Sound m (logs_in a) r = Extends-Sound m (login m a).0 (login-Extends m a) r
  step-Sound m (restores sess a) r =
      Extends-Sound m (restore_session m sess a).0 (restore_session-Extends m sess a) r
  step-Sound m (logs_out user) r = logout-Sound m user r
  step-Sound m (keeps_key user key) r = record {
    older = r.older;
    known = r.known;
    open_ones = r.open_ones;
    apart = r.apart;
  }
  step-Sound m (reads_key user) r = record {
    older = r.older;
    known = r.known;
    open_ones = r.open_ones;
    apart = r.apart;
  }

  run_from-Sound : (m : Manager) (os : List Op) → Sound m → Sound (run m os)
  unfolding run
  run_from-Sound m [] r = r
  run_from-Sound m (o ∷ os) r = run_from-Sound (step m o) os (step-Sound m o r)

  -- The manager before it restores the stored sessions.
  abbrev pub empty_manager : Store → Manager
  empty_manager s = record {
    store = s;
    cancelled = false;
    matrix_sessions = [];
    curr_session = none;
    closed = [];
    next = 0;
  }

  -- From a new manager, after any sequence of restarts, logins, logouts and changes of recovery
  -- keys, whatever the homeserver, the keyring and the crypto library answer: no session that the
  -- manager has for a user is closed, and no two users share one.
  pub run-Sound : (s : Store) (os : List Op) → Sound (run (empty_manager s) os)
  unfolding lookup
  run-Sound s os = run_from-Sound (empty_manager s) os (record {
    older = λ n h. absurd (no h);
    known = λ u t h. absurd (none_ne h);
    open_ones = λ u t h. refl;
    apart = λ u v t w h i e. absurd (none_ne h);
  })
    where
      no : false ≡ true → ⊥
      no h = ground arith

      none_ne : {t : MatrixSession} → none ≡ some t → ⊥
      none_ne h = cc
