-- ===== src/Session/Reads.antt =====
-- What the session store keeps, and what it does when the keyring fails.
use arko.Base.{
  Bool-cases, ◌≤◌, ℕ, String, Bool, true, false, ◌≡◌, refl, sym, ap, ◌∙◌, Option, none, some, List,
  [], ◌∷◌, arith, ◌==◌, eq_refl, if◌then◌else◌, Option-cases, length, zero, suc, ◌≤◌, inl, inr,
}
use arko.Base.Assoc.{lookup, insert, remove, lookup-insert, lookup-remove}
use arko.Session.External.{Keyring, Json}
use arko.Session.{
  Session, GlobalSettings, Got, found, not_found, broken, Store, saved, save, get, put, update,
  update_and_get, update_got, delete, delete_or_keep, restarted, get_or_create_cookie_key,
  cookie_key_of, create_cookie_key, cookie_key_keyring_key, padded,
}
use arko.Session.Laws.{IsUserKey, saved-other, remove_known_user-other, delete_or_keep-ok}

module _ ⦃k : Keyring⦄ ⦃sessions : Json Session⦄ ⦃settings : Json GlobalSettings⦄
    ⦃users : Json (List String)⦄ where
  -- What `Get` gives depends on one entry of the cache and one of the keyring.
  abbrev pub got_of : Option Session → Option k.Text → Got
  got_of (some sess) raw = found sess
  got_of none none = not_found
  got_of none (some raw) = elim (sessions.unmarshal raw) [ none ↦ broken | some sess ↦ found sess ]

  pub get_lem :
      (s : Store) (user : String)
      → (get s user).0 ≡ got_of (lookup user s.cache) (k.get s.keyring user)
  unfolding get
  get_lem s user = ground arith

  pub save_ok :
      (s : Store) (sess : Session) (r : k.State)
      → k.set s.keyring sess.user_id (sessions.marshal sess) ≡ some r
      → save s sess ≡ (saved (record s { keyring = r }) sess, true)
  unfolding save
  save_ok s sess r h = ground arith

  pub save_fails :
      (s : Store) (sess : Session)
      → k.set s.keyring sess.user_id (sessions.marshal sess) ≡ none
      → save s sess ≡ (s, false)
  unfolding save
  save_fails s sess h = ground arith

  module _ (s : Store) (sess : Session) (key : IsUserKey sess.user_id) where
    abbrev raw : k.Text
    raw = sessions.marshal sess

    -- Every key of the keyring after a successful write, and every session in the cache.
    kept :
        (r : k.State) (user : String)
        → IsUserKey user
        → k.set s.keyring sess.user_id raw ≡ some r
        → let t = saved (record s { keyring = r }) sess in
          (k.get t.keyring user ≡ (if sess.user_id == user then some raw else k.get s.keyring user))
          × (lookup user t.cache
              ≡ (if sess.user_id == user then some sess else lookup user s.cache))
    kept r user u h =
        let p = saved-other (record s { keyring = r }) sess user u in
        (
          p.0 ∙ k.get-set s.keyring r sess.user_id user raw h,
          ap (lookup user) p.1 ∙ lookup-insert sess.user_id user sess s.cache,
        )

    here :
        (mine : Bool) (user : String)
        → got_of
            (if mine then some sess else lookup user s.cache)
            (if mine then some raw else k.get s.keyring user)
          ≡ (if mine then found sess else (get s user).0)
    here true user = refl
    here false user = sym (get_lem s user)

    there :
        (mine : Bool) (user : String)
        → got_of (lookup user []) (if mine then some raw else k.get s.keyring user)
          ≡ (if mine then found sess else (get (restarted s) user).0)
    unfolding lookup
    there true user = rw sessions.unmarshal-marshal refl
    there false user = sym (get_lem (restarted s) user)

    put_success :
        (put s sess).1 ≡ true
        → (r : k.State) × (k.set s.keyring sess.user_id raw ≡ some r)
          × ((put s sess).0 ≡ saved (record s { keyring = r }) sess)
    unfolding put
    put_success h = elim (Option-cases (k.set s.keyring sess.user_id raw)) [
      | inl e ↦ absurd (let f = save_fails s sess e in ground arith)
      | inr (r, e) ↦ (r, e, ap (λ p. p.0) (save_ok s sess r e))
    ]

    -- A session that is saved without an error, under a key that is not one of the store's own, is
    -- what a later read of its user gives, in this process and in the next one; the reads of other
    -- users are unchanged in both.
    pub get-put :
        (put s sess).1 ≡ true
        → (user : String) → IsUserKey user
        → let r = (put s sess).0 in
          ((get r user).0 ≡ (if sess.user_id == user then found sess else (get s user).0))
          × ((get (restarted r) user).0
              ≡ (if sess.user_id == user then found sess else (get (restarted s) user).0))
    get-put h user u =
        let (r, e, f) = put_success h in
        let p = kept r user u e in
        (
          ap (λ t. (get t user).0) f
              ∙ get_lem (saved (record s { keyring = r }) sess) user
              ∙ rw (p.0, p.1) (here (sess.user_id == user) user),
          ap (λ t. (get (restarted t) user).0) f
              ∙ get_lem (restarted (saved (record s { keyring = r }) sess)) user
              ∙ rw p.0 (there (sess.user_id == user) user),
        )

  -- A session that is deleted from the keyring without an error is not found any more, in this
  -- process or in the next one.
  pub get-delete :
      (s : Store) (user : String) (r : k.State)
      → IsUserKey user
      → k.delete s.keyring user ≡ some r
      → ((get (delete s user) user).0 ≡ not_found)
        × ((get (restarted (delete s user)) user).0 ≡ not_found)
  unfolding delete lookup
  get-delete s user r key h = (
    get_lem (delete s user) user ∙ rw (forgotten.1, forgotten.0, lookup-remove, eq_refl) refl,
    get_lem (restarted (delete s user)) user ∙ rw forgotten.0 refl,
  )
    where
      s1 : Store
      s1 = record (delete_or_keep s user) { cache = remove user s.cache }

      forgotten :
          (k.get (delete s user).keyring user ≡ none)
          × ((delete s user).cache ≡ remove user s.cache)
      forgotten =
          let p = remove_known_user-other s1 user user key.0 in
          (
            p.0
                ∙ ap (λ t. k.get t user) (delete_or_keep-ok s user r h)
                ∙ k.get-delete s.keyring r user user h
                ∙ ap (λ b. if b then none else k.get s.keyring user) (eq_refl user),
            p.1,
          )

  update_known :
      (s : Store) (user : String) (fn : Session → Session) (sess : Session)
      → (get s user).0 ≡ found sess
      → let r =
          save
            (record (get s user).1 { cache = insert user (fn sess) (get s user).1.cache })
            (fn sess) in
        update s user fn ≡ r
  unfolding update update_and_get update_got
  update_known s user fn sess h = ground (
    arith,
    Bool-cases
        (save (record (get s user).1 { cache = insert user (fn sess) (get s user).1.cache })
          (fn sess)).1,
  )

  -- After an update of a session that was found, which keeps its user and reports no error, a read
  -- gives the session with the change, in this process and in the next one.
  pub get-update :
      (s : Store) (user : String) (fn : Session → Session) (sess : Session)
      → IsUserKey user
      → (get s user).0 ≡ found sess
      → (fn sess).user_id ≡ user
      → (update s user fn).1 ≡ true
      → ((get (update s user fn).0 user).0 ≡ found (fn sess))
        × ((get (restarted (update s user fn).0) user).0 ≡ found (fn sess))
  unfolding put
  get-update s user fn sess key h same ok =
      let e = update_known s user fn sess h in
      let base = record (get s user).1 { cache = insert user (fn sess) (get s user).1.cache } in
      let p = get-put base (fn sess) (rw same key) (rw e at ok) user key in
      rw e (p.0 ∙ rw (same, eq_refl) refl, p.1 ∙ rw (same, eq_refl) refl)

  refused_step :
      (s : Store) (user : String) (fn : Session → Session) (sess : Session)
      → lookup user s.cache ≡ some sess
      → k.set s.keyring (fn sess).user_id (sessions.marshal (fn sess)) ≡ none
      → update s user fn ≡ (record s { cache = insert user (fn sess) s.cache }, false)
  unfolding update update_and_get update_got get
  refused_step s user fn sess h refused =
      let f = save_fails (record s { cache = insert user (fn sess) s.cache }) (fn sess) refused in
      ground arith

  -- An update of a cached session that the keyring refuses to store reports an error, but the
  -- session in the cache has been changed: a read of this process gives the change, and one of the
  -- next process gives what it would have given before.
  pub update_unsaved :
      (s : Store) (user : String) (fn : Session → Session) (sess : Session)
      → lookup user s.cache ≡ some sess
      → k.set s.keyring (fn sess).user_id (sessions.marshal (fn sess)) ≡ none
      → let r = (update s user fn).0 in
        ((update s user fn).1 ≡ false)
        × ((get r user).0 ≡ found (fn sess))
        × ((get (restarted r) user).0 ≡ (get (restarted s) user).0)
  update_unsaved s user fn sess h refused =
      let p = refused_step s user fn sess h refused in
      rw (p, get_lem, lookup-insert, eq_refl) (refl, refl, refl)

  padded_long : (n : ℕ) (key : List ℕ) → n ≤ length (padded n key)
  unfolding padded
  padded_long zero key = omega arith
  padded_long (suc n) [] = omega (arith, padded_long n [])
  padded_long (suc n) (b ∷ bs) = omega (arith, padded_long n bs)

  -- Where the keyring has no cookie key and takes one, the first start uses and stores its random
  -- key; the next start finds that key and uses its own random key in its place.
  pub cookie_key_changes :
      (s : Store) (first second generated : List ℕ) (r : k.State)
      → k.get s.keyring cookie_key_keyring_key ≡ none
      → k.set s.keyring cookie_key_keyring_key (k.text_of (padded 64 first)) ≡ some r
      → let s1 = (get_or_create_cookie_key s (some first) generated).1 in
        ((get_or_create_cookie_key s (some first) generated).0 ≡ first)
        × (k.get s1.keyring cookie_key_keyring_key ≡ some (k.text_of (padded 64 first)))
        × (get_or_create_cookie_key (restarted s1) (some second) generated ≡ (second, restarted s1))
  unfolding get_or_create_cookie_key cookie_key_of create_cookie_key
  cookie_key_changes s first second generated r h w =
      let stays =
        k.get-set s.keyring r cookie_key_keyring_key cookie_key_keyring_key
          (k.text_of (padded 64 first)) w in
      let long = padded_long 64 first in
      let same = k.bytes-text_of (padded 64 first) in ground (arith, eq_refl cookie_key_keyring_key)
