-- ===== src/Chat/Page/Listing.antt =====
-- The list of a page that is opened, by what each message of the room shows.
use arko.Base.{
  ℕ, ◌+◌, ◌≤◌, Bool, true, false, not, ◌≡◌, ◌≢◌, refl, Option, none, some, List, [], ◌∷◌, ◌++◌,
  arith, eq_iff, Bool-cases, inl, inr, if◌then◌else◌,
}
use arko.Base.SyncMap.{SyncMap}
use arko.Models.{Message, is_pending, is_decrypting}
use arko.Matrix.BTree.{BTree}
use arko.Matrix.Tree.{MessageTree, items}
use arko.Matrix.Tree.Listen.{chronological}
use arko.Chat.{bubble, follows_on, is_continued}
use arko.Chat.Lists.{message_ids}
use arko.Chat.Page.{
  Inside, skeleton, inside, Row, divider, row, message_body, message_bubble,
  message_bubble_continued, message_row, dividers, is_same_day, message_list, listed_after, row_ids,
  opened, ids-message_list,
}

-- A message of the same author, at most five minutes apart, in nanoseconds.
abbrev pub Follows : Message → Message → Type 0
Follows a m =
    (a.author.id ≡ m.author.id)
    × (a.timestamp ≤ m.timestamp + 300_000_000_000)
    × (m.timestamp ≤ a.timestamp + 300_000_000_000)

-- Whether a message goes on without a heading of its own.
abbrev pub Continues : Option Message → Message → Bool → Type 0
Continues none m continued = continued ≡ false
Continues (some a) m continued =
    (Follows a m → continued ≡ true) × ((Follows a m → ⊥) → continued ≡ false)

-- A placeholder, or the body with a heading or without.
abbrev pub Shown : Bool → Message → Inside → Type 0
Shown heading m i =
    (is_decrypting m ≡ true → i ≡ skeleton)
    × (is_decrypting m ≡ false → i ≡ inside heading (is_pending m) (message_body m))

-- A divider with the day of the message before, exactly where the days differ.
abbrev pub Divided : (ℕ → ℕ) → Option Message → Message → List Row → Type 0
Divided day none m ds = ds ≡ []
Divided day (some a) m ds =
    (day m.timestamp ≡ day a.timestamp → ds ≡ [])
    × (day m.timestamp ≢ day a.timestamp → ds ≡ divider (day a.timestamp) ∷ [])

-- The rows of messages in their order, behind another one.
abbrev pub IsListing : (ℕ → ℕ) → Option Message → List Message → List Row → Type 0
IsListing day prev [] rows = rows ≡ []
IsListing day prev (m ∷ ms) rows =
    (ds : List Row) × (continued : Bool) × (i : Inside) × (rest : List Row) × (rows
      ≡ ds ++ row (bubble m continued) i ∷ rest)
    × Divided day prev m ds
    × Continues prev m continued
    × Shown (not continued) m i
    × IsListing day (some m) ms rest

follows_on-Follows : (a m : Message) → follows_on a m ≡ true → Follows a m
unfolding follows_on
follows_on-Follows a m h = ground (arith, eq_iff a.author.id m.author.id)

Follows-follows_on : (a m : Message) → Follows a m → follows_on a m ≡ true
unfolding follows_on
Follows-follows_on a m h = ground (arith, eq_iff a.author.id m.author.id)

Continues-is_continued :
    (prev : Option Message) (m : Message) → Continues prev m (is_continued prev m)
unfolding is_continued
Continues-is_continued none m = refl
Continues-is_continued (some a) m = (
  Follows-follows_on a m,
  λ n. elim (Bool-cases (follows_on a m)) [
    | inl t ↦ absurd (n (follows_on-Follows a m t))
    | inr f ↦ f
  ],
)

Divided-dividers :
    (day : ℕ → ℕ) (prev : Option Message) (m : Message) → Divided day prev m (dividers day prev m)
unfolding dividers is_same_day
Divided-dividers day none m = refl
Divided-dividers day (some a) m = ((λ e. ground arith), λ n. ground arith)

abbrev shown_as : Bool → Message → Inside
shown_as continued m = if continued then message_bubble_continued m else message_bubble m

Shown-as : (continued : Bool) (m : Message) → Shown (not continued) m (shown_as continued m)
unfolding message_bubble message_bubble_continued
Shown-as true m = ((λ h. rw h refl), λ h. rw h refl)
Shown-as false m = ((λ h. rw h refl), λ h. rw h refl)

IsListing-listed_after :
    (day : ℕ → ℕ) (prev : Option Message) (ms : List Message)
    → IsListing day prev ms (listed_after day prev ms)
unfolding message_row
IsListing-listed_after day prev [] = refl
IsListing-listed_after day prev (m ∷ ms) = (
  dividers day prev m,
  is_continued prev m,
  shown_as (is_continued prev m) m,
  listed_after day (some m) ms,
  refl,
  Divided-dividers day prev m,
  Continues-is_continued prev m,
  Shown-as (is_continued prev m) m,
  IsListing-listed_after day (some m) ms,
)

module _ ⦃x : SyncMap⦄ ⦃b : BTree⦄ (day : ℕ → ℕ) (t : MessageTree) where
  -- A page that is opened shows the messages of the room's tree, each once and in the order of the
  -- tree. A message has a heading exactly if it does not follow on the one before it, which means
  -- the same author and at most five minutes in between; one that is being decrypted is a
  -- placeholder. It stands right below the one before it, with a divider in between, which shows
  -- the day of that one, exactly if they are of different days.
  pub message_list-chronological :
      IsListing day none (items t) (message_list day (chronological t))
      × (row_ids (message_list day (chronological t)) ≡ message_ids (items t))
  message_list-chronological =
      (rw (opened day t) (IsListing-listed_after day none (items t)), ids-message_list day t)
