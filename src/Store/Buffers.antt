-- ===== src/Store/Buffers.antt =====
-- The bounded buffers of the store: the series of measurements and the log of events.
use vor.Common.{
  ℕ, zero, suc, ◌+◌, ◌-◌, ◌≤◌, ◌<◌, ◌≡◌, refl, sym, List, [], ◌∷◌, ◌++◌, arith, length,
  length-append, length-drop, drop, take_last, leb, Bool-cases, inl, inr, Text,
}
use vor.Store.{World, EngineEvent, Level, push_series, log_event}

drop-append :
    {A : Type 0} (n : ℕ) (xs ys : List A) → n ≤ length xs → drop n (xs ++ ys) ≡ drop n xs ++ ys
drop-append zero xs ys h = refl
drop-append (suc n) [] ys h = absurd (omega arith)
drop-append (suc n) (x ∷ xs) ys h = drop-append n xs ys (omega arith)

take_last_bound : {A : Type 0} (n : ℕ) (xs : List A) → length (take_last n xs) ≤ n
take_last_bound n xs = omega (arith, length-drop (length xs - n) xs)

push_same : {F : Type 0} (arr : List F) (v : F) → push_series arr v ≡ take_last 48 (arr ++ v ∷ [])
unfolding push_series
push_same arr v = elim (Bool-cases (leb 48 (length arr))) [
  | inl full ↦
      let big : 48 ≤ length arr = ground arith in
      let same : length (arr ++ v ∷ []) - 48 ≡ length arr - 48 + 1 =
        omega (arith, length-append arr (v ∷ [])) in
      rw (full, same, push_series)
        (sym (drop-append (length arr - 48 + 1) arr (v ∷ []) (omega arith)))
  | inr room ↦
      let small : length arr < 48 = ground arith in
      let same : length (arr ++ v ∷ []) - 48 ≡ 0 = omega (arith, length-append arr (v ∷ [])) in
      rw (room, same, push_series)
]

-- A push gives the last 48 of the series with the value at its end, so never more than 48.
pub push_series-take_last :
    {F : Type 0} (arr : List F) (v : F)
    → (push_series arr v ≡ take_last 48 (arr ++ v ∷ [])) × (length (push_series arr v) ≤ 48)
unfolding push_series
push_series-take_last arr v =
    (push_same arr v, rw (push_same arr v) (take_last_bound 48 (arr ++ v ∷ [])))

-- The log after an event holds the last 200 of the log with the event at its end, so never more.
pub log_event-take_last :
    {F : Type 0} (ts : ℕ) (stage : Text) (level : Level) (w : World F)
    → ((log_event ts stage level w).store.events
        ≡ take_last 200 (w.store.events ++ record { ts = ts; stage = stage; level = level } ∷ []))
      × (length (log_event ts stage level w).store.events ≤ 200)
unfolding log_event
log_event-take_last ts stage level w =
    let es = w.store.events in
    let e : EngineEvent = record { ts = ts; stage = stage; level = level } in
    let same : length (es ++ e ∷ []) - 200 ≡ length es - 199 =
      omega (arith, length-append es (e ∷ [])) in
    (
      sym (rw same (drop-append (length es - 199) es (e ∷ []) (omega arith))),
      omega (arith, length-append (take_last 199 es) (e ∷ []), length-drop (length es - 199) es),
    )
