-- ===== src/Api/Served.antt =====
-- What the views of web/api/views.py serve, and to whom.
use mathlib.Core.List.{Perm}
use sensor_server.Prelude.{
  ℕ, ◌-◌, ◌≤◌, ◌<◌, String, ◌≡◌, refl, ap, Bool, true, false, not, Option, none, some, List, [],
  ◌∷◌, All, arith, ltb, leb, ◌&&◌, ◌||◌, ◌==◌, eq_refl, length, take, select, any, map, pos, negsuc,
  if_cases, ℤ,
}
use sensor_server.Text.{is_empty}
use sensor_server.Value.{Dict, get}
use sensor_server.Store.{Device}
use sensor_server.Api.Range.{
  Parsed, unreadable, impossible, aware, naive, Reader, Range, window, bad_range, raised, param,
  clamp, parse_limit, max_limit, max_range, check_span, from_start, from_end, parse_range,
}
use sensor_server.World.Order.{order_by, IsSorted, order_by-Perm, order_by-IsSorted}
use sensor_server.Api.Page.{key_le}
use sensor_server.Api.Paging.{cut_page_lem, key_le-total}
use sensor_server.Api.Views.{
  Page, Reply, page, bad_request, not_found, server_error, Source, is_approved_id,
  approved_device_ids, resolve_devices, matches, fetch, in_range, listing,
}

-- The limit of a query is within its bounds.
pub parse_limit-bounds :
    (env : Reader) (query : Dict String)
    → (1 ≤ parse_limit env query) × (parse_limit env query ≤ max_limit)
unfolding parse_limit
parse_limit-bounds env query = text (get "limit" query)
  where
    clamped : (o : Option ℤ) → (1 ≤ clamp o) × (clamp o ≤ max_limit)
    clamped none = (omega arith, omega arith)
    clamped (some (pos n)) = (omega arith, omega arith)
    clamped (some (negsuc n)) = (omega arith, omega arith)

    text :
        (o : Option String)
        → (1 ≤ (elim o [ none ↦ 1000 | some t ↦ clamp (env.parse_int t) ]))
          × ((elim o [ none ↦ 1000 | some t ↦ clamp (env.parse_int t) ]) ≤ max_limit)
    text none = (omega arith, omega arith)
    text (some t) = clamped (env.parse_int t)

-- A window is not empty, and is not longer than the maximum.
abbrev pub IsBounded : Range → Type 0
IsBounded (window start end) = (start < end) × (end - start ≤ max_range)
IsBounded _ = Unit

check_span-IsBounded : (start end : ℕ) → IsBounded (check_span start end)
unfolding check_span
check_span-IsBounded start end =
    if_cases IsBounded (leb end start) (λ _. tt)
      (λ e.
        if_cases IsBounded (ltb max_range (end - start)) (λ _. tt)
          (λ f. (ground (arith, e), ground (arith, f))))

from_start-IsBounded : (env : Reader) (end : ℕ) (p : Parsed) → IsBounded (from_start env end p)
from_start-IsBounded env end unreadable = tt
from_start-IsBounded env end impossible = tt
from_start-IsBounded env end (aware n) = check_span-IsBounded n end
from_start-IsBounded env end (naive n) = check_span-IsBounded (env.make_aware n) end

from_end-IsBounded : (env : Reader) (text : String) (p : Parsed) → IsBounded (from_end env text p)
from_end-IsBounded env text unreadable = tt
from_end-IsBounded env text impossible = tt
from_end-IsBounded env text (aware n) = from_start-IsBounded env n _
from_end-IsBounded env text (naive n) = from_start-IsBounded env (env.make_aware n) _

parse_range-IsBounded :
    (env : Reader) (now : ℕ) (query : Dict String) → IsBounded (parse_range env now query)
unfolding parse_range
parse_range-IsBounded env now query = from_end-IsBounded env (param "start" query) _

-- Each device of a query is approved.
abbrev pub AllApproved : List Device → List String → Type 0
AllApproved devices ids = All (λ id. is_approved_id devices id ≡ true) ids

approved_device_ids-AllApproved :
    (all ds : List Device)
    → ((id : String) → is_approved_id ds id ≡ true → is_approved_id all id ≡ true)
    → AllApproved all (approved_device_ids ds)
unfolding approved_device_ids select is_approved_id any
approved_device_ids-AllApproved all [] up = tt
approved_device_ids-AllApproved all (d ∷ ds) up =
    let rest = approved_device_ids-AllApproved all ds (λ id h. up id (ground (arith, h))) in
    if_cases (λ (l : List Device). AllApproved all (map (λ e. e.device_id) l)) d.is_approved
      (λ e. (up d.device_id (ground (arith, e, eq_refl d.device_id)), rest)) (λ _. rest)

abbrev Resolved : List Device → Dict String → Option (List String) → Type 0
Resolved devices query none =
    (is_empty (param "device_id" query) ≡ false)
    × (is_approved_id devices (param "device_id" query) ≡ false)
Resolved devices query (some ids) = AllApproved devices ids

resolve_devices-Resolved :
    (devices : List Device) (query : Dict String)
    → Resolved devices query (resolve_devices devices query)
unfolding resolve_devices
resolve_devices-Resolved devices query =
    if_cases (Resolved devices query) (is_empty (param "device_id" query))
      (λ _. approved_device_ids-AllApproved devices devices (λ id h. h))
      (λ e.
        if_cases (Resolved devices query) (not (is_approved_id devices (param "device_id" query)))
          (λ f. (e, ground (arith, f))) (λ f. (ground (arith, f), tt)))

-- A row of one of the devices, not before the start and not behind the end, and of the metric if
-- one is named.
abbrev pub is_asked : List String → ℕ → ℕ → String → ℕ × String × String → Bool
is_asked ids start end metric (time, device, name) =
    any (λ id. id == device) ids
    && leb start time
    && leb time end
    && (is_empty metric || (name == metric))

module _ {A : Type 0} where
  -- A page of the rows that pass a test: the first ones in order, and whether there are more.
  pub record IsPage (le : A → A → Bool) (test : A → Bool) (rows : List A) (limit : ℕ) (p : Page A)
      : Type 0 where
    pub order : List A
    pub complete : Perm order (select test rows)
    pub sorted : IsSorted le order
    pub front : p.rows ≡ take limit order
    pub counted : p.count ≡ length p.rows
    pub more : p.has_more ≡ ltb limit (length order)

  -- What a reply means.
  abbrev pub IsListing :
      Reader → ℕ → Source → (A → ℕ × String × String) → List A → Dict String → Reply A → Type 0
  IsListing env now src key rows query (page p) =
      (start : ℕ) × (end : ℕ) × (ids : List String) × (parse_range env now query ≡ window start end)
      × (start < end)
      × (end - start ≤ max_range)
      × (resolve_devices src.devices query ≡ some ids)
      × AllApproved src.devices ids
      × (1 ≤ parse_limit env query)
      × (parse_limit env query ≤ max_limit)
      × IsPage (λ a b. key_le src.text_le (key a) (key b))
          (λ a. is_asked ids start end (param "metric" query) (key a)) rows (parse_limit env query)
          p
  IsListing env now src key rows query (bad_request detail) =
      parse_range env now query ≡ bad_range detail
  IsListing env now src key rows query (not_found detail) =
      (is_empty (param "device_id" query) ≡ false)
      × (is_approved_id src.devices (param "device_id" query) ≡ false)
  IsListing env now src key rows query server_error = parse_range env now query ≡ raised

  module _ (env : Reader) (now : ℕ) (src : Source) (key : A → ℕ × String × String) (rows : List A)
      (query : Dict String)
      (total : (s t : String) → src.text_le s t ≡ false → src.text_le t s ≡ true) where
    in_range-IsListing :
        (o : Option (List String)) (r : Range)
        → parse_range env now query ≡ r
        → IsBounded r
        → resolve_devices src.devices query ≡ o
        → Resolved src.devices query o
        → IsListing env now src key rows query
            (in_range src.text_le key rows (param "metric" query) (parse_limit env query) o r)
    unfolding fetch matches
    in_range-IsListing o (bad_range detail) e b f h = e
    in_range-IsListing o raised e b f h = e
    in_range-IsListing none (window start end) e b f h = h
    in_range-IsListing (some ids) (window start end) e b f h =
        let le = λ (a : A) (b : A). key_le src.text_le (key a) (key b) in
        let found = select (λ (a : A). matches ids start end (param "metric" query) (key a)) rows in
        let bounds = parse_limit-bounds env query in
        let cut = cut_page_lem (parse_limit env query) (order_by le found) in
        (
          start,
          end,
          ids,
          e,
          b.0,
          b.1,
          f,
          h,
          bounds.0,
          bounds.1,
          record {
            order = order_by le found;
            complete = order_by-Perm le found;
            sorted =
                order_by-IsSorted le (λ x y. key_le-total src.text_le total (key x) (key y)) found;
            front = ap (λ c. c.0) cut;
            counted = refl;
            more = ap (λ c. c.1) cut;
          },
        )

    pub listing-IsListing :
        IsListing env now src key rows query (listing env now src key rows query)
    unfolding listing
    listing-IsListing =
        in_range-IsListing (resolve_devices src.devices query) (parse_range env now query) refl
          (parse_range-IsBounded env now query) refl (resolve_devices-Resolved src.devices query)
