-- ===== src/Client/Examples.antt =====
-- A cache of two identifiers.
use busd.Prelude.{ℕ, ◌≡◌, refl, true, false, not, List, [], ◌∷◌, arith}
use busd.Order.{bytes_order}
use busd.Map.{contains, set_insert}
use busd.Protocol.Types.{MessageId}
use busd.Client.Dedup.{new_cache, record_id, set_remove}
use busd.Client.Cache.{IsCache, new_cache-IsCache}
use busd.Client.Window.{record_all, record_all_retains, record_id_window}

abbrev numbered : ℕ → MessageId
numbered n = n ∷ 0 ∷ 0 ∷ 0 ∷ 0 ∷ 0 ∷ 0 ∷ 0 ∷ 0 ∷ 0 ∷ 0 ∷ 0 ∷ 0 ∷ 0 ∷ 0 ∷ 0 ∷ []

abbrev three : List MessageId
three = numbered 1 ∷ numbered 2 ∷ numbered 3 ∷ []

-- The first of three has expired.
three_recorded : (record_all three (new_cache 2)).order ≡ numbered 2 ∷ numbered 3 ∷ []
unfolding record_all record_id set_insert set_remove
three_recorded = refl

first_recorded : (record_id (numbered 1) (new_cache 2)).0 ≡ true
unfolding record_id
first_recorded = refl

two-IsCache : IsCache (new_cache 2)
two-IsCache = new_cache-IsCache 2

record_id_window_example :
    (record_id
      (numbered 1)
      (record_all (numbered 2 ∷ []) (record_id (numbered 1) (new_cache 2)).1)).0
    ≡ false
record_id_window_example =
    record_id_window (new_cache 2) (numbered 1) (numbered 2 ∷ []) two-IsCache first_recorded
      (omega arith)

record_all_retains_example :
    IsCache (record_all three (new_cache 2))
    × ((record_id (numbered 3) (record_all three (new_cache 2))).0
        ≡ not (contains (numbered 3) (record_all three (new_cache 2)).order))
    × ((record_all three (new_cache 2)).capacity ≡ 2)
record_all_retains_example = record_all_retains 2 three (numbered 3)
