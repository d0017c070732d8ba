-- ===== src/Chat/Page.antt =====
-- components/ui/message_bubble.templ, by its generated Go code: the list of messages of a page that
-- is opened. `day` is the calendar day of an instant in the zone of the machine, whose year, month
-- and day `IsSameDay` compares and `FormatDate` shows.
pub mod Listing
mod Tests
use mathlib.Core.List.{append_assoc, append-nil, reverse, reverse-cons, reverse-reverse}
use arko.Base.{
  ℕ, String, Bool, true, false, not, ◌≡◌, refl, ap, sym, ◌∙◌, Option, none, some, List, [], ◌∷◌,
  ◌++◌, ◌==◌, eqb, map, if◌then◌else◌, arith,
}
use arko.Base.SyncMap.{SyncMap}
use arko.Models.{
  Message, Reaction, Embed, Attachment, AttachmentType, image, file, is_pending, is_decrypting,
}
use arko.Matrix.BTree.{BTree}
use arko.Matrix.Tree.{MessageTree, items}
use arko.Matrix.Tree.Listen.{chronological}
use arko.Chat.{Bubble, bubble, follows_on, is_continued}
use arko.Chat.Lists.{message_ids}

-- What `messageBody` shows.
pub data Body : Type 0 where
  system_message locked : Body
  deleted : String → Body
  written : String → List Attachment → List Embed → List Reaction → ℕ → Body

unfoldable pub message_body : Message → Body
message_body m =
    if m.is_system
    then system_message
    else if m.undecryptable
    then locked
    else if m.redacted
    then deleted m.content
    else written m.content m.attachments m.embeds m.reactions m.thread_count

-- The inside of a bubble: a placeholder, or the body with a heading or without and with a sign of a
-- message that waits.
pub data Inside : Type 0 where
  skeleton : Inside
  inside : Bool → Bool → Body → Inside

unfoldable pub message_bubble : Message → Inside
unfolding message_body is_decrypting is_pending
message_bubble m = if is_decrypting m then skeleton else inside true (is_pending m) (message_body m)

unfoldable pub message_bubble_continued : Message → Inside
unfolding message_body is_decrypting is_pending
message_bubble_continued m =
    if is_decrypting m then skeleton else inside false (is_pending m) (message_body m)

-- `MessageBubbleOOB`, with which a message that is on the page is rendered again.
unfoldable pub message_bubble_oob : Message → Bool → Inside
unfolding message_body is_pending
message_bubble_oob m continued = inside (not continued) (is_pending m) (message_body m)

-- A row of the list: a divider with a day, or a message as `MessageBubbleContinued` (`true`) or
-- `MessageBubble` shows it.
pub data Row : Type 0 where
  divider : ℕ → Row
  row : Bubble → Inside → Row

unfoldable pub message_row : Option Message → Message → Row
unfolding is_continued follows_on message_bubble message_bubble_continued
message_row older m =
    row (bubble m (is_continued older m))
      (if is_continued older m then message_bubble_continued m else message_bubble m)

abbrev pub first : List Message → Option Message
first [] = none
first (m ∷ ms) = some m

abbrev pub row_ids : List Row → List String
row_ids [] = []
row_ids (divider d ∷ rows) = row_ids rows
row_ids (row b i ∷ rows) = b.id ∷ row_ids rows

ids-message_row :
    (prev : Option Message) (m : Message) (rows : List Row)
    → row_ids (message_row prev m ∷ rows) ≡ m.id ∷ row_ids rows
unfolding message_row
ids-message_row prev m rows = refl

-- The last message of a list.
abbrev last_of : Option Message → List Message → Option Message
last_of prev [] = prev
last_of prev (m ∷ ms) = last_of (some m) ms

last_of-append :
    (prev : Option Message) (l : List Message) (m : Message) → last_of prev (l ++ m ∷ []) ≡ some m
last_of-append prev [] m = refl
last_of-append prev (k ∷ l) m = last_of-append (some k) l m

last_of-reverse : (ms : List Message) → last_of none (reverse ms) ≡ first ms
last_of-reverse [] = refl
last_of-reverse (m ∷ ms) =
    ap (last_of none) (reverse-cons m ms) ∙ last_of-append none (reverse ms) m

module _ (day : ℕ → ℕ) where
  unfoldable pub is_same_day : ℕ → ℕ → Bool
  is_same_day a b = eqb (day a) (day b)

  -- The body of the loop: the message of a round, and the one before it in the loop, which is the
  -- older one.
  unfoldable pub dividers : Option Message → Message → List Row
  unfolding is_same_day
  dividers none m = []
  dividers (some older) m =
      if is_same_day m.timestamp older.timestamp then [] else divider (day older.timestamp) ∷ []

  -- The loop, which runs from the last message of the list to its first.
  unfoldable pub message_list : List Message → List Row
  unfolding dividers message_row
  message_list [] = []
  message_list (m ∷ older) =
      message_list older ++ (dividers (first older) m ++ message_row (first older) m ∷ [])

  -- The same list for messages in their order, with the message before them.
  abbrev pub listed_after : Option Message → List Message → List Row
  listed_after prev [] = []
  listed_after prev (m ∷ ms) = dividers prev m ++ (message_row prev m ∷ listed_after (some m) ms)

  listed_after-append :
      (prev : Option Message) (l r : List Message)
      → listed_after prev (l ++ r) ≡ listed_after prev l ++ listed_after (last_of prev l) r
  listed_after-append prev [] r = refl
  listed_after-append prev (m ∷ l) r = rw (listed_after-append (some m) l r) (
      sym (
        append_assoc (dividers prev m) (message_row prev m ∷ listed_after (some m) l)
          (listed_after (last_of (some m) l) r)))

  -- The loop backwards over the list that is the newest first is one forwards over the room.
  message_list-reverse : (ms : List Message) → message_list ms ≡ listed_after none (reverse ms)
  unfolding message_list
  message_list-reverse [] = refl
  message_list-reverse (m ∷ older) =
      ap (λ rows. rows ++ (dividers (first older) m ++ message_row (first older) m ∷ []))
        (message_list-reverse older)
      ∙ ap (λ o. listed_after none (reverse older) ++ (dividers o m ++ message_row o m ∷ []))
          (sym (last_of-reverse older))
      ∙ sym (
          ap (listed_after none) (reverse-cons m older)
          ∙ listed_after-append none (reverse older) (m ∷ []))

  ids-dividers :
      (prev : Option Message) (m : Message) (rows : List Row)
      → row_ids (dividers prev m ++ rows) ≡ row_ids rows
  unfolding dividers
  ids-dividers none m rows = refl
  ids-dividers (some older) m rows = ground arith

  row_ids-listed_after :
      (prev : Option Message) (ms : List Message) → row_ids (listed_after prev ms) ≡ message_ids ms
  row_ids-listed_after prev [] = refl
  row_ids-listed_after prev (m ∷ ms) =
      ids-dividers prev m (message_row prev m ∷ listed_after (some m) ms)
      ∙ ids-message_row prev m (listed_after (some m) ms)
      ∙ ap (λ is. m.id ∷ is) (row_ids-listed_after (some m) ms)

  module _ ⦃x : SyncMap⦄ ⦃b : BTree⦄ (t : MessageTree) where
    pub opened : message_list (chronological t) ≡ listed_after none (items t)
    unfolding chronological
    opened =
        message_list-reverse (reverse (items t))
        ∙ ap (listed_after none) (reverse-reverse (items t))

    pub ids-message_list : row_ids (message_list (chronological t)) ≡ message_ids (items t)
    ids-message_list = ap row_ids opened ∙ row_ids-listed_after none (items t)
