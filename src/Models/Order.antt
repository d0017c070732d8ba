-- ===== src/Models/Order.antt =====
-- internal/matrix/message_tree.go, `byTimestamp`: the order of a room's messages, and what makes it
-- an order that a sorted container can use.
use arko.Base.{
  Bool, true, false, ◌≡◌, arith, ltb, eqb, str_lt, str_lt_irrefl, str_lt_trans, str_lt_asym,
  str_lt_connex, if◌then◌else◌,
}
use arko.Models.{Message}

unfoldable pub by_timestamp : Message → Message → Bool
by_timestamp a b =
    if eqb a.timestamp b.timestamp then str_lt a.id b.id else ltb a.timestamp b.timestamp

pub by_timestamp_irrefl : (a : Message) → by_timestamp a a ≡ false
unfolding by_timestamp
by_timestamp_irrefl a = ground (arith, str_lt_irrefl a.id)

pub by_timestamp_asym : (a b : Message) → by_timestamp a b ≡ true → by_timestamp b a ≡ false
unfolding by_timestamp
by_timestamp_asym a b h = ground (arith, str_lt_asym a.id b.id)

pub by_timestamp_trans :
    (a b c : Message) → by_timestamp a b ≡ true → by_timestamp b c ≡ true → by_timestamp a c ≡ true
unfolding by_timestamp
by_timestamp_trans a b c p q = ground (arith, str_lt_trans a.id b.id c.id)

-- Two messages that the order does not separate have one instant and one id.
pub by_timestamp_connex :
    (a b : Message)
    → by_timestamp a b ≡ false
    → by_timestamp b a ≡ false
    → (a.timestamp ≡ b.timestamp) × (a.id ≡ b.id)
unfolding by_timestamp
by_timestamp_connex a b p q = ground (arith, str_lt_connex a.id b.id)
