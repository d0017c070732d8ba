-- ===== src/Session/Laws.antt =====
-- What each write of the session store leaves alone.
use arko.Base.{
  String, false, ◌≡◌, refl, ap, ◌∙◌, Option, none, some, List, [], ◌∷◌, ◌++◌, arith, ◌==◌,
  Option-cases, inl, inr,
}
use arko.Base.Assoc.{insert}
use arko.Session.External.{Keyring, Json}
use arko.Session.{
  Session, GlobalSettings, Store, set_or_keep, get_known_users, add_known_user, remove_known_user,
  get_global_settings, put_global_settings, update_from, update_global_settings, saved,
  delete_or_keep, known_users_key, global_settings_key,
}

module _ ⦃k : Keyring⦄ ⦃sessions : Json Session⦄ ⦃settings : Json GlobalSettings⦄
    ⦃users : Json (List String)⦄ where
  -- A key that a write does not name reads as before, whether the write succeeds or not.
  pub set_or_keep-other :
      (s : Store) (key j : String) (v : k.Text)
      → (key == j) ≡ false
      → k.get (set_or_keep s key v).keyring j ≡ k.get s.keyring j
  set_or_keep-other s key j v ne = elim (Option-cases (k.set s.keyring key v)) [
    | inl h ↦ rw (h, set_or_keep) refl
    | inr (r, h) ↦ rw (h, set_or_keep) (k.get-set s.keyring r key j v h ∙ rw ne refl)
  ]

  pub set_or_keep-cache :
      (s : Store) (key : String) (v : k.Text) → (set_or_keep s key v).cache ≡ s.cache
  set_or_keep-cache s key v = elim (Option-cases (k.set s.keyring key v)) [
    | inl h ↦ rw (h, set_or_keep) refl
    | inr (r, h) ↦ rw (h, set_or_keep) refl
  ]

  pub add_known_user-other :
      (s : Store) (user j : String)
      → (known_users_key == j) ≡ false
      → (k.get (add_known_user s user).keyring j ≡ k.get s.keyring j)
        × ((add_known_user s user).cache ≡ s.cache)
  unfolding add_known_user
  add_known_user-other s user j ne = ground (
    arith,
    set_or_keep-other s known_users_key j (users.marshal (get_known_users s ++ user ∷ [])) ne,
    set_or_keep-cache s known_users_key (users.marshal (get_known_users s ++ user ∷ [])),
  )

  pub put_global_settings-other :
      (s : Store) (gs : GlobalSettings) (j : String)
      → (global_settings_key == j) ≡ false
      → (k.get (put_global_settings s gs).0.keyring j ≡ k.get s.keyring j)
        × ((put_global_settings s gs).0.cache ≡ s.cache)
  unfolding put_global_settings
  put_global_settings-other s gs j ne =
      elim (Option-cases (k.set s.keyring global_settings_key (settings.marshal gs))) [
        | inl h ↦ rw (h, put_global_settings) (refl, refl)
        | inr (r, h) ↦
            rw (h, put_global_settings)
              (
                k.get-set s.keyring r global_settings_key j (settings.marshal gs) h ∙ rw ne refl,
                refl,
              )
      ]

  pub get_global_settings_same :
      (s : Store)
      → ((get_global_settings s).1.keyring ≡ s.keyring)
        × ((get_global_settings s).1.cache ≡ s.cache)
  unfolding get_global_settings
  get_global_settings_same s = ground arith

  pub update_from-other :
      (fn : GlobalSettings → GlobalSettings) (g : Option GlobalSettings) (s : Store) (j : String)
      → (global_settings_key == j) ≡ false
      → (k.get (update_from fn (g, s)).0.keyring j ≡ k.get s.keyring j)
        × ((update_from fn (g, s)).0.cache ≡ s.cache)
  unfolding update_from
  update_from-other fn none s j ne = (refl, refl)
  update_from-other fn (some gs) s j ne = put_global_settings-other _ (fn gs) j ne

  pub update_global_settings-other :
      (s : Store) (fn : GlobalSettings → GlobalSettings) (j : String)
      → (global_settings_key == j) ≡ false
      → (k.get (update_global_settings s fn).0.keyring j ≡ k.get s.keyring j)
        × ((update_global_settings s fn).0.cache ≡ s.cache)
  unfolding update_global_settings
  update_global_settings-other s fn j ne =
      let p = update_from-other fn (get_global_settings s).0 (get_global_settings s).1 j ne in
      let q = get_global_settings_same s in (p.0 ∙ ap (λ r. k.get r j) q.0, p.1 ∙ q.1)

  -- A key of one user's session, not one of the store's own.
  abbrev pub IsUserKey : String → Type 0
  IsUserKey key = ((known_users_key == key) ≡ false) × ((global_settings_key == key) ≡ false)

  pub saved-other :
      (s : Store) (sess : Session) (j : String)
      → IsUserKey j
      → (k.get (saved s sess).keyring j ≡ k.get s.keyring j)
        × ((saved s sess).cache ≡ insert sess.user_id sess s.cache)
  unfolding saved
  saved-other s sess j (n, m) =
      let s1 = record s { cache = insert sess.user_id sess s.cache } in
      let p = add_known_user-other s1 sess.user_id j n in
      let q =
        update_global_settings-other (add_known_user s1 sess.user_id)
          (λ gs. record { last_user_id = sess.user_id }) j m in
      (q.0 ∙ p.0, q.1 ∙ p.1)

  pub remove_known_user-other :
      (s : Store) (user j : String)
      → (known_users_key == j) ≡ false
      → (k.get (remove_known_user s user).keyring j ≡ k.get s.keyring j)
        × ((remove_known_user s user).cache ≡ s.cache)
  unfolding remove_known_user
  remove_known_user-other s user j ne =
      (set_or_keep-other s known_users_key j _ ne, set_or_keep-cache s known_users_key _)

  pub delete_or_keep-ok :
      (s : Store) (key : String) (r : k.State)
      → k.delete s.keyring key ≡ some r
      → (delete_or_keep s key).keyring ≡ r
  delete_or_keep-ok s key r h = ground arith
