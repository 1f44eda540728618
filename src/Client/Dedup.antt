-- ===== src/Client/Dedup.antt =====
-- The `DeduplicationCache` of a receiver.
use busd.Prelude.{ℕ, Bool, true, false, List, [], ◌∷◌, ◌++◌, length, ◌==◌, if◌then◌else◌}
use busd.Order.{bytes_order, same}
use busd.Map.{contains, set_insert}
use busd.Protocol.Types.{MessageId}

pub record DeduplicationCache : Type 0 where
  pub capacity : ℕ
  pub order : List MessageId
  pub entries : List MessageId

abbrev pub new_cache : ℕ → DeduplicationCache
new_cache capacity = record { capacity = capacity; order = []; entries = [] }

-- `BTreeSet::remove`
unfoldable pub set_remove : MessageId → List MessageId → List MessageId
set_remove id [] = []
set_remove id (j ∷ s) = let rest = set_remove id s in if same id j then rest else j ∷ rest

-- `pop_front`, and the removal of what it returns.
abbrev pub expire_from : List MessageId → DeduplicationCache → DeduplicationCache
expire_from [] c = c
expire_from (expired ∷ order) c = record c { order = order; entries = set_remove expired c.entries }

abbrev pub expire : DeduplicationCache → DeduplicationCache
expire c = expire_from c.order c

unfoldable pub record_id : MessageId → DeduplicationCache → Bool × DeduplicationCache
unfolding set_remove
record_id message_id c =
    let room = (if length c.order == c.capacity then expire c else c) in
    let recorded = record room {
      order = room.order ++ message_id ∷ [];
      entries = set_insert message_id room.entries;
    } in
    if contains message_id c.entries
    then (false, c)
    else if c.capacity == 0
    then (true, c)
    else (true, recorded)

unfoldable pub cache_length : DeduplicationCache → ℕ
cache_length c = length c.entries

unfoldable pub is_empty_cache : DeduplicationCache → Bool
is_empty_cache c = length c.entries == 0
