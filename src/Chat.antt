-- ===== src/Chat.antt =====
-- internal/service/chat.go: what the listener of a room's tree sends to the browsers, as patches of
-- the list of messages on the page. That the templates render is assumed. A browser applies the
-- patches that htmx reads from `hx-swap-oob`; one whose target is not on the page changes nothing.
pub mod Lists
pub mod Moves
pub mod Follow
pub mod Regroup
pub mod Echo
pub mod Typing
pub mod Page
pub mod Live
pub mod Open
mod Tests
use arko.Base.{
  ℕ, ◌-◌, ◌*◌, String, Bool, true, false, not, ◌&&◌, Option, none, some, List, [], ◌∷◌, ◌++◌, ◌==◌,
  map, ltb, leb, if◌then◌else◌,
}
use arko.Models.{Message}
use arko.Matrix.Tree.{TreeEvent, Neighbors, TreeEventType, add_event, remove_event, update_event}

-- utils.WithinMinutes, of instants in nanoseconds
unfoldable pub within_minutes : ℕ → ℕ → ℕ → Bool
within_minutes a b minutes = leb (if ltb a b then b - a else a - b) (minutes * 60_000_000_000)

-- A message below another one of the same author, at most five minutes apart.
unfoldable pub follows_on : Message → Message → Bool
unfolding within_minutes
follows_on prev msg =
    prev.author.id == msg.author.id && within_minutes prev.timestamp msg.timestamp 5

-- A message on the page: `continued` is one without its author's name and picture.
pub record Bubble : Type 0 where
  pub id : String
  pub continued : Bool

pub data Patch : Type 0 where
  put_before put_after replace : String → Bubble → Patch
  put_last : Bubble → Patch
  remove : String → Patch

abbrev pub bubble : Message → Bool → Bubble
bubble m continued = record { id = m.id; continued = continued }

unfoldable pub is_continued : Option Message → Message → Bool
unfolding follows_on
is_continued none msg = false
is_continued (some prev) msg = follows_on prev msg

unfoldable pub insert_patch : Neighbors → Bubble → Patch
insert_patch near b = elim near.next [
  | some n ↦ put_before n.id b
  | none ↦ elim near.prev [ some p ↦ put_after p.id b | none ↦ put_last b ]
]

unfoldable pub event_patch : TreeEventType → TreeEvent → Patch
unfolding is_continued insert_patch
event_patch add_event evt =
    insert_patch evt.neighbors (bubble evt.message (is_continued evt.neighbors.prev evt.message))
event_patch update_event evt =
    replace (if not (evt.update_nonce == "") then evt.update_nonce else evt.message.id)
      (bubble evt.message (is_continued evt.neighbors.prev evt.message))
event_patch remove_event evt = remove evt.message.id

-- `checkRegrouping`: the message to render again, and how.
unfoldable pub is_followed : Message → Option Message → Bool
unfolding follows_on
is_followed prev none = false
is_followed prev (some next) = follows_on prev next

unfoldable pub check_regrouping_with :
    Option Message → Option Message → Message → Option (Message × Bool)
unfolding follows_on is_followed
check_regrouping_with none next msg = none
check_regrouping_with (some prev) next msg =
    let now = follows_on prev msg in
    if is_followed prev next
    then (if now then none else some (prev, now))
    else if now
    then some (prev, now)
    else none

unfoldable pub check_regrouping : Message → Neighbors → Option (Message × Bool)
unfolding check_regrouping_with
check_regrouping msg near = check_regrouping_with near.prev near.next msg

unfoldable pub regroup_patches : Option (Message × Bool) → List Patch
regroup_patches none = []
regroup_patches (some (prev, continued)) = replace prev.id (bubble prev continued) ∷ []

-- What the listener sends for an event.
unfoldable pub patches : TreeEvent → List Patch
unfolding event_patch check_regrouping regroup_patches
patches evt =
    event_patch evt.event_type evt ∷ regroup_patches (check_regrouping evt.message evt.neighbors)

-- The browser.
unfoldable pub apply : Patch → List Bubble → List Bubble
apply (put_last b) page = page ++ b ∷ []
apply (put_before target b) [] = []
apply (put_before target b) (c ∷ page) =
    if c.id == target then b ∷ c ∷ page else c ∷ apply (put_before target b) page
apply (put_after target b) [] = []
apply (put_after target b) (c ∷ page) =
    if c.id == target then c ∷ b ∷ page else c ∷ apply (put_after target b) page
apply (replace target b) [] = []
apply (replace target b) (c ∷ page) =
    if c.id == target then b ∷ page else c ∷ apply (replace target b) page
apply (remove target) [] = []
apply (remove target) (c ∷ page) = if c.id == target then page else c ∷ apply (remove target) page

unfoldable pub apply_all : List Patch → List Bubble → List Bubble
unfolding apply
apply_all [] page = page
apply_all (p ∷ ps) page = apply_all ps (apply p page)

-- The page after the listener's patches for an event.
unfoldable pub show : List Bubble → TreeEvent → List Bubble
unfolding patches apply_all
show page evt = apply_all (patches evt) page
