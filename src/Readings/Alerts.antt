-- ===== src/Readings/Alerts.antt =====
-- The timeline of Readings/Timeline.antt shows the alert that is in force at each time.
use sensor_server.Prelude.{
  ℕ, ◌≤◌, ◌<◌, String, ◌≡◌, refl, sym, ◌∙◌, ap, inl, inr, Bool, ◌&&◌, Option, none, some, List, [],
  ◌∷◌, arith, ltb, leb, leb→le, select, find, ◌==◌, if◌then◌else◌, Option-cases,
}
use sensor_server.World.{StatusLog}
use sensor_server.World.Order.{insert_by, order_by, IsSorted, order_by-IsSorted, tail-IsSorted}
use sensor_server.Readings.Timeline.{
  Alert, alert_of, later, last_log, alert_or_none, initial_alert, window_logs, Segment, segment,
  shown_level, segments, timeline,
}

-- The abstract view: the alert of a device at a time is that of its last log row up to then.
unfoldable pub alert_at : String → ℕ → List StatusLog → Alert
unfolding last_log select
alert_at id t logs = alert_or_none (last_log (select (λ l. (l.device == id) && leb l.time t) logs))

-- What a list of segments shows at a time: the first one that holds it.
unfoldable pub shown_at : ℕ → List Segment → Option (String × String)
unfolding find
shown_at t ss = elim (find (λ s. leb s.start t && ltb t s.end) ss) [
  | none ↦ none
  | some s ↦ some (s.level, s.message)
]

abbrev pub seen : Alert → String × String
seen a = (shown_level a.level, a.message)

abbrev or_row : Option StatusLog → Option StatusLog → Option StatusLog
or_row none o = o
or_row (some m) o = some m

-- In rows by their time, the last one up to a time.
last_upto : ℕ → List StatusLog → Option StatusLog
last_upto t [] = none
last_upto t (l ∷ ls) =
    let rest = last_upto t ls in if leb l.time t then or_row rest (some l) else none

abbrev alert_or : Alert → Option StatusLog → Alert
alert_or a none = a
alert_or a (some l) = alert_of l

alert_or-or_row :
    (a : Alert) (l : StatusLog) (o : Option StatusLog)
    → alert_or (alert_of l) o ≡ alert_or a (or_row o (some l))
alert_or-or_row a l none = refl
alert_or-or_row a l (some m) = refl

segments-shown_at :
    (start end t : ℕ) (a : Alert) (ls : List StatusLog)
    → start ≤ t
    → t < end
    → shown_at t (segments start end a ls) ≡ some (seen (alert_or a (last_upto t ls)))
unfolding shown_at segments segment find last_upto
segments-shown_at start end t a [] h k = ground (arith, h, k)
segments-shown_at start end t a (l ∷ ls) h k = ground (
  arith,
  h,
  k,
  segments-shown_at l.time end t (alert_of l) ls,
  alert_or-or_row a l (last_upto t ls),
)

-- The order of window_logs.
abbrev by_time : StatusLog → StatusLog → Bool
by_time l m = leb l.time m.time

last_upto-ge :
    (t : ℕ) (e : StatusLog) (ls : List StatusLog) (m : StatusLog)
    → IsSorted by_time (e ∷ ls)
    → last_upto t ls ≡ some m
    → e.time ≤ m.time
unfolding last_upto
last_upto-ge t e [] m s h = cc
last_upto-ge t e (l ∷ ls) m s h =
    ground (
      arith,
      last_upto-ge t l ls m s.1,
      s.0,
      leb→le e.time l.time s.0,
      Option-cases (last_upto t ls),
    )

-- A row inserted in its place, as seen from a time.
last_upto-insert_by :
    (t : ℕ) (c : StatusLog) (ls : List StatusLog)
    → IsSorted by_time ls
    → last_upto t (insert_by by_time c ls)
      ≡ (if leb c.time t then later c (last_upto t ls) else last_upto t ls)
unfolding last_upto insert_by
last_upto-insert_by t c [] s = ground arith
last_upto-insert_by t c (e ∷ es) s = elim (Option-cases (last_upto t es)) [
  | inl h ↦ ground (arith, h, last_upto-insert_by t c es (tail-IsSorted by_time e es s))
  | inr (m, h) ↦ ground (
    arith,
    h,
    last_upto-insert_by t c es (tail-IsSorted by_time e es s),
    last_upto-ge t e es m s h,
  )
]

last_log-order_by :
    (t : ℕ) (ls : List StatusLog)
    → last_upto t (order_by by_time ls) ≡ last_log (select (λ l. leb l.time t) ls)
unfolding last_upto order_by last_log select
last_log-order_by t [] = refl
last_log-order_by t (l ∷ ls) =
    let sorted = order_by-IsSorted by_time (λ x y h. ground (arith, h)) ls in
    ground (arith, last_upto-insert_by t l (order_by by_time ls) sorted, last_log-order_by t ls)

-- Bounds on the rows that three selections end with.
last_log-ge :
    (id : String) (start end t : ℕ) (ls : List StatusLog) (m : StatusLog)
    → last_log (
        select
          (λ l. leb l.time t)
          (select (λ l. (l.device == id) && leb start l.time && leb l.time end) ls))
      ≡ some m
    → start ≤ m.time
unfolding last_log select
last_log-ge id start end t [] m h = cc
last_log-ge id start end t (l ∷ ls) m h = ground (arith, last_log-ge id start end t ls m)

last_log-lt :
    (id : String) (start : ℕ) (ls : List StatusLog) (m : StatusLog)
    → last_log (select (λ l. (l.device == id) && ltb l.time start) ls) ≡ some m
    → m.time < start
unfolding last_log select
last_log-lt id start [] m h = cc
last_log-lt id start (l ∷ ls) m h = ground (arith, last_log-lt id start ls m)

-- The last row up to a time of the window is one of the window, or the last one before it.
last_log-split :
    (id : String) (start end t : ℕ) (ls : List StatusLog)
    → start ≤ t
    → t < end
    → last_log (select (λ l. (l.device == id) && leb l.time t) ls)
      ≡ or_row
          (last_log (
            select
              (λ l. leb l.time t)
              (select (λ l. (l.device == id) && leb start l.time && leb l.time end) ls)))
          (last_log (select (λ l. (l.device == id) && ltb l.time start) ls))
unfolding last_log select
last_log-split id start end t [] h k = refl
last_log-split id start end t (l ∷ ls) h k =
    let within = last_log (
      select (λ l. leb l.time t)
        (select (λ l. (l.device == id) && leb start l.time && leb l.time end) ls)) in
    let before = last_log (select (λ l. (l.device == id) && ltb l.time start) ls) in
    elim (Option-cases within) [
      | inl e ↦ elim (Option-cases before) [
        | inl f ↦ ground (arith, e, f, h, k, last_log-split id start end t ls h k)
        | inr (m, f) ↦
            ground
              (arith, e, f, h, k, last_log-split id start end t ls h k, last_log-lt id start ls m f)
      ]
      | inr (m, e) ↦
          ground (
            arith,
            e,
            h,
            k,
            last_log-split id start end t ls h k,
            last_log-ge id start end t ls m e,
          )
    ]

alert_or-alert_or_none :
    (o p : Option StatusLog) → alert_or (alert_or_none p) o ≡ alert_or_none (or_row o p)
alert_or-alert_or_none none p = refl
alert_or-alert_or_none (some l) p = refl

-- The segments join: each ends where the next one starts, from the start to the end of the window.
abbrev pub Joins : ℕ → ℕ → List Segment → Type 0
Joins start end [] = start ≡ end
Joins start end (s ∷ ss) = (s.start ≡ start) × Joins s.end end ss

segments-Joins :
    (start end : ℕ) (a : Alert) (ls : List StatusLog) → Joins start end (segments start end a ls)
unfolding segments segment
segments-Joins start end a [] = (refl, refl)
segments-Joins start end a (l ∷ ls) = (refl, segments-Joins l.time end (alert_of l) ls)

-- The segments join from the start of the window to its end, and at each time of the window, its end
-- apart, the first segment that holds the time shows the level and the message of the alert that the
-- last log row of the device up to then set, and "ok" if there is none.
pub timeline-alert_at :
    (id : String) (start end t : ℕ) (logs : List StatusLog)
    → start ≤ t
    → t < end
    → Joins start end (timeline id start end logs)
      × (shown_at t (timeline id start end logs) ≡ some (seen (alert_at id t logs)))
unfolding timeline initial_alert window_logs alert_at
timeline-alert_at id start end t logs h k =
    let window =
      select (λ (l : StatusLog). (l.device == id) && leb start l.time && leb l.time end) logs in
    let first = select (λ (l : StatusLog). (l.device == id) && ltb l.time start) logs in
    (
      segments-Joins start end (alert_or_none (last_log first)) (order_by by_time window),
      segments-shown_at start end t (alert_or_none (last_log first)) (order_by by_time window) h k
          ∙ ap (λ o. some (seen (alert_or (alert_or_none (last_log first)) o)))
              (last_log-order_by t window)
          ∙ ap (λ a. some (seen a))
              (alert_or-alert_or_none (last_log (select (λ l. leb l.time t) window))
                (last_log first))
          ∙ ap (λ o. some (seen (alert_or_none o))) (sym (last_log-split id start end t logs h k)),
    )
