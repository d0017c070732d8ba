-- ===== src/Matrix/KeyBackup.antt =====
-- internal/matrix/key_backup.go: the key of the server's backup of message keys, and the restoring
-- and uploading of the keys of a room. The cryptography and the server's answers, mautrix's, are
-- arguments; `fail` is an error.
pub mod Laws
mod Tests
use arko.Base.{
  ℕ, ◌+◌, ◌%◌, ◌^◌, String, Bool, true, false, not, ◌&&◌, Option, none, some, List, [], ◌∷◌, ◌++◌,
  ◌==◌, leb, is_some, if◌then◌else◌,
}
use arko.Base.Assoc.{lookup, insert}
use arko.Session
use arko.Session.{Session, GlobalSettings, Store, Got, found, not_found, broken, zero_session}
use arko.Session.External.{Keyring, Json}

-- What `ssssKeyToBackupKey` meets: the account data, and whether it is encrypted for the key; a new
-- key and whether it is uploaded; the decrypted bytes and the key in them.
pub record BackupAnswers (K : Type 0) : Type 0 where
  pub account : Option Bool
  pub new_key : Option K
  pub uploaded : Bool
  pub decrypted : Option (List ℕ)
  pub parsed : List ℕ → Option K

-- The server's default key and the check of a recovery key or a passphrase against it.
pub record DefaultKey : Type 0 where
  pub key_data : Bool
  pub verifies : String → Bool

-- The devices of a user: their identity keys and whether each is verified by hand.
abbrev pub Devices : Type 0
Devices = List (String × Bool)

-- A session of the backup: its first index, an `int`, by its 64 bits; whether it decrypts, whether
-- the crypto store's session under its id is read, whether the session is built and stored, and of
-- the session that is built the id and the first index that it knows.
pub record BackedUp : Type 0 where
  pub session_id : String
  pub first_message_index : ℕ
  pub decrypts : Bool
  pub readable : Bool
  pub builds : Bool
  pub stores : Bool
  pub built_id : String
  pub known_index : ℕ

-- The steps of `BackupRoomKeys` that can fail.
pub record UploadAnswers : Type 0 where
  pub session : Option (String × ℕ)
  pub version : Option String
  pub exports : Bool
  pub encrypts : Bool
  pub marshals : Bool
  pub accepted : Bool

-- The request that the server gets.
pub record Upload : Type 0 where
  pub version : String
  pub session_id : String
  pub first_message_index : ℕ
  pub is_verified : Bool

-- The function that `Init` passes to `UpdateAndGet`: `generated` is the text of the recovery key of
-- the key that is made and uploaded.
unfoldable pub with_recovery_key : Option String → Session → Session
with_recovery_key generated s =
    if not (s.recovery_key == "")
    then s
    else elim generated [ none ↦ s | some key ↦ record s { recovery_key = key } ]

module _ {K : Type 0} where
  unfoldable pub ssss_key_to_backup_key : BackupAnswers K → Option K
  ssss_key_to_backup_key a = elim a.account [
    | none ↦ none
    | some encrypted ↦
        if encrypted
        then elim a.decrypted [ none ↦ none | some bytes ↦ a.parsed bytes ]
        else if a.uploaded
        then a.new_key
        else none
  ]

  unfoldable pub get_backup_key_from_recovery_key : DefaultKey → BackupAnswers K → String → Option K
  unfolding ssss_key_to_backup_key
  get_backup_key_from_recovery_key d a recovery_key =
      if d.key_data && d.verifies recovery_key then ssss_key_to_backup_key a else none

  unfoldable pub get_backup_key_from_passphrase : DefaultKey → BackupAnswers K → String → Option K
  get_backup_key_from_passphrase d a passphrase =
      if d.key_data && d.verifies passphrase
      then elim a.decrypted [ none ↦ none | some bytes ↦ a.parsed bytes ]
      else none

  -- The key that it sets.
  unfoldable pub generated_key : Option String → BackupAnswers K → Session → Option K → Option K
  unfolding ssss_key_to_backup_key
  generated_key generated a s current =
      if not (s.recovery_key == "") then current else elim generated [
        | none ↦ current
        | some key ↦ elim (ssss_key_to_backup_key a) [ none ↦ current | some k ↦ some k ]
      ]

  -- `Init` behind `UpdateAndGet`.
  unfoldable pub acquire : DefaultKey → BackupAnswers K → String → Option K → Option K × Bool
  unfolding get_backup_key_from_recovery_key
  acquire d a recovery_key (some k) = (some k, true)
  acquire d a recovery_key none =
      if not (recovery_key == "")
      then elim (get_backup_key_from_recovery_key d a recovery_key) [
        | none ↦ (none, false)
        | some k ↦ (some k, true)
      ]
      else (none, false)

  -- The key after `UpdateAndGet`, which calls its function on a session or fails before.
  unfoldable pub key_after : Option String → BackupAnswers K → Option K → Got → Option K
  unfolding generated_key
  key_after generated a current (found sess) = generated_key generated a sess current
  key_after generated a current not_found = generated_key generated a (zero_session "") current
  key_after generated a current broken = current

  module _ ⦃k : Keyring⦄ ⦃sessions : Json Session⦄ ⦃settings : Json GlobalSettings⦄
      ⦃users : Json (List String)⦄ where
    -- The new store, the current key, and whether `Init` returns no error.
    unfoldable pub init_after :
        DefaultKey → BackupAnswers K → Option K → Store × Option Session → Store × Option K × Bool
    unfolding acquire
    init_after d a current (s, none) = (s, current, false)
    init_after d a current (s, some sess) =
        let (key, ok) = acquire d a sess.recovery_key current in (s, key, ok)

    unfoldable pub init :
        Store
        → String
        → Option String
        → DefaultKey
        → BackupAnswers K
        → Option K
        → Store × Option K × Bool
    unfolding with_recovery_key key_after init_after Session.update_and_get
    init s user generated d a current =
        init_after d a (key_after generated a current (Session.get s user).0)
          (Session.update_and_get s user (with_recovery_key generated))

-- The first indices that the crypto store knows.
abbrev pub KnownKeys : Type 0
KnownKeys = List (String × ℕ)

-- Whether the store's session is at least as good; the index of the backup is cut to a `uint32`.
unfoldable pub already_known : KnownKeys → BackedUp → Bool
already_known store b = elim (lookup b.session_id store) [
  | none ↦ false
  | some index ↦ leb index (b.first_message_index % 2 ^ 32)
]

-- The loop of `RestoreRoomKeys`: the store, the number of imported sessions, and whether the loop
-- goes to its end.
unfoldable pub restore_loop : KnownKeys → ℕ → List BackedUp → KnownKeys × ℕ × Bool
unfolding already_known
restore_loop store imported [] = (store, imported, true)
restore_loop store imported (b ∷ bs) =
    let skipped = restore_loop store imported bs in
    let restored = restore_loop (insert b.built_id b.known_index store) (imported + 1) bs in
    if not b.decrypts
    then skipped
    else if not b.readable
    then (store, imported, false)
    else if already_known store b
    then skipped
    else if b.builds && b.stores
    then restored
    else skipped

-- `version` and `room_keys` are the server's answers.
unfoldable pub restore_room_keys :
    {K : Type 0} → Option K → KnownKeys → Bool → Option (List BackedUp) → KnownKeys × ℕ × Bool
unfolding restore_loop
restore_room_keys none store version room_keys = (store, 0, false)
restore_room_keys (some k) store false room_keys = (store, 0, false)
restore_room_keys (some k) store true none = (store, 0, false)
restore_room_keys (some k) store true (some bs) = restore_loop store 0 bs

-- `GetIsVerified`, of the devices where their list is read.
unfoldable pub is_trusted_sender : String → Devices → Bool
is_trusted_sender key [] = false
is_trusted_sender key (d ∷ ds) = if d.0 == key then d.1 else is_trusted_sender key ds

unfoldable pub get_is_verified : Option Devices → String → Bool
unfolding is_trusted_sender
get_is_verified none key = false
get_is_verified (some ds) key = is_trusted_sender key ds

-- The request that `BackupRoomKeys` makes, and whether it returns no error.
unfoldable pub backup_room_keys :
    {K : Type 0} → Option K → String → Option Devices → UploadAnswers → Option Upload × Bool
unfolding get_is_verified
backup_room_keys none session_id devices a = (none, false)
backup_room_keys (some k) session_id devices a = elim a.session [
  | none ↦ (none, false)
  | some (sender_key, first_index) ↦ elim a.version [
    | none ↦ (none, false)
    | some version ↦
        if a.exports && a.encrypts && a.marshals
        then (
          some (record {
            version = version;
            session_id = session_id;
            first_message_index = first_index;
            is_verified = get_is_verified devices sender_key;
          }),
          a.accepted,
        )
        else (none, false)
  ]
]
