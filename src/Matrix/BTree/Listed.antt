-- ===== src/Matrix/BTree/Listed.antt =====
-- An implementation of the ordered container by sorted lists: it shows that the laws can hold, and
-- runs in the tests.
use arko.Base.{Bool, true, false, ◌≡◌, refl, List, [], ◌∷◌}
use arko.Models.{Message, User, online}
use arko.Models.Sorted
use arko.Models.Sorted.{split_onto}
use arko.Matrix.BTree.{BTree, is_cons}

abbrev pub no_user : User
no_user = record { id = ""; name = ""; avatar = ""; status = online; homeserver = ""; e2ee = false }

-- The zero value of the structure.
abbrev pub no_message : Message
no_message = record {
  id = "";
  content = "";
  author = no_user;
  timestamp = 0;
  nonce = "";
  room_id = "";
  reactions = [];
  thread_count = 0;
  thread_participants = [];
  last_thread_reply = 0;
  attachments = [];
  embeds = [];
  undecryptable = false;
  redacted = false;
  is_pinned = false;
  is_system = false;
  system_icon = "";
}

abbrev pub Place : Type 0
Place = List Message × List Message

abbrev pub forward : Place → Bool × Place
forward (before, a ∷ b ∷ rest) = (true, (a ∷ before, b ∷ rest))
forward (before, rest) = (false, (before, rest))

abbrev pub back : Place → Bool × Place
back (a ∷ before, rest) = (true, (before, a ∷ rest))
back ([], rest) = (false, ([], rest))

abbrev pub here : Place → Message
here (before, []) = no_message
here (before, a ∷ rest) = a

pub forward_step :
    (c : Place) (before rest : List Message) (a b : Message)
    → c ≡ (before, a ∷ b ∷ rest)
    → ((forward c).0 ≡ true) × ((forward c).1 ≡ (a ∷ before, b ∷ rest))
forward_step c before rest a b h = rw h (refl, refl)

abbrev pub listed : BTree
listed = record {
  Tree = List Message;
  Cursor = Place;
  empty = [];
  set = λ t m. (Sorted.insert m t, Sorted.find m t);
  delete = λ t m. Sorted.delete m t;
  items = λ t. t;
  seek = λ t m. (is_cons (split_onto [] m t).1, split_onto [] m t);
  next = forward;
  prev = back;
  item = here;
  view = λ c. c;
  items-empty = refl;
  items-set = λ t m. refl;
  replaced-set = λ t m. refl;
  items-delete = λ t m. refl;
  view-seek = λ t m. refl;
  seek-found = λ t m. refl;
  next_step = forward_step;
  next_end = λ c before a h. rw h refl;
  prev_step = λ c before rest a h. rw h (refl, refl);
  prev_end = λ c rest h. rw h refl;
  item_view = λ c before rest a h. rw h refl;
}
