-- ===== src/Devices/Neighbours.antt =====
-- `_prev_next_device` of web/devices/views.py: the devices before and behind one, in a circle.
use sensor_server.Prelude.{
  ℕ, zero, suc, ◌+◌, ◌-◌, ◌%◌, String, Bool, Option, none, some, List, [], ◌∷◌, length, map, select,
  ◌==◌, if◌then◌else◌,
}
use sensor_server.Store.{Device}
use sensor_server.World.Order.{order_by}

-- ids.index(id), where it is
unfoldable pub index_of : String → List String → Option ℕ
index_of id [] = none
index_of id (x ∷ xs) =
    let rest = index_of id xs in
    if x == id then some 0 else elim rest [ none ↦ none | some i ↦ some (suc i) ]

-- ids[i], within the list
abbrev pub nth : ℕ → List String → String
nth i [] = ""
nth zero (x ∷ xs) = x
nth (suc i) (x ∷ xs) = nth i xs

-- ids[i - 1], where -1 is the last index
abbrev pub before : ℕ → List String → String
before zero ids = nth (length ids - 1) ids
before (suc i) ids = nth i ids

abbrev pub around : List String → Option ℕ → Option (String × String)
around ids none = none
around ids (some i) = some (before i ids, nth ((i + 1) % length ids) ids)

-- The ids of the approved devices, in the order of the database.
unfoldable pub approved_ids : (String → String → Bool) → List Device → List String
unfolding select order_by
approved_ids text_le devices =
    order_by text_le (map (λ d. d.device_id) (select (λ d. d.is_approved) devices))

-- _prev_next_device
unfoldable pub prev_next_device :
    (String → String → Bool) → List Device → String → Option (String × String)
unfolding approved_ids index_of
prev_next_device text_le devices id =
    let ids = approved_ids text_le devices in around ids (index_of id ids)
