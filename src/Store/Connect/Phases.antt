-- ===== src/Store/Connect/Phases.antt =====
-- A run ends: every resumption brings it nearer to its end, whatever happens while it waits.
use vor.Common.{
  ℕ, zero, suc, ◌-◌, ◌*◌, ◌≤◌, ◌<◌, ◌≡◌, refl, inl, inr, Bool, Option, none, some, List, [], ◌∷◌,
  arith, length, Text, Floats, Bool-cases,
}
use vor.Dpi.{Scenario}
use vor.Tunnel.{selecting_transport, ladder_at, ladder_index, transport_eq}
use vor.Tunnel.Scoring.{DecisionExplanation}
use vor.Store.{World}
use vor.Store.Connect.{
  Phase, prepare, check, backoff, dial, shake, switch, finished, Draw, attempt_loop, select,
  dial_best, fail_attempt, advance, resume, fail_chance, escalate, record_failure, is_alive,
}

-- The attempt of a phase is one of the five.
abbrev pub IsWithin : {F : Type 0} → Phase F → Type 0
IsWithin prepare = Unit {0}
IsWithin check = Unit {0}
IsWithin (backoff k) = k < 5
IsWithin (dial k best sc) = k < 5
IsWithin (shake k best sc) = k < 5
IsWithin (switch k) = k < 5
IsWithin finished = Unit {0}

-- A bound on the resumptions that are left.
abbrev pub left : {F : Type 0} → Phase F → ℕ
left prepare = 21
left check = 20
left (backoff k) = 4 * (5 - k)
left (dial k best sc) = 4 * (5 - k) - 1
left (shake k best sc) = 4 * (5 - k) - 2
left (switch k) = 4 * (5 - k) - 3
left finished = 0

module _ (fl : Floats) (id_after : Text → Text → Bool) where
  open fl use {F}

  -- A phase at most `m` resumptions from the end.
  abbrev pub EndsWithin : ℕ → Phase F → Type 0
  EndsWithin m ph = IsWithin ph × (left ph ≤ m)

  weaken : {a b : ℕ} (ph : Phase F) → EndsWithin a ph → a ≤ b → EndsWithin b ph
  weaken ph (p, q) h = (p, omega arith)

  dial_best-EndsWithin :
      (now k : ℕ) (o : Option (DecisionExplanation F)) (sc : Scenario) (w : World F)
      → k < 5
      → EndsWithin (4 * (5 - k) - 1) (dial_best fl id_after now k o sc w).1
  unfolding dial_best
  dial_best-EndsWithin now k none sc w h = omega arith
  dial_best-EndsWithin now k (some best) sc w h = omega arith

  select-EndsWithin :
      (now k : ℕ) (w : World F)
      → k < 5
      → EndsWithin (4 * (5 - k) - 1) (select fl id_after now k w).1
  unfolding select
  select-EndsWithin now k w h = dial_best-EndsWithin now k _ _ _ h

  attempt_loop-EndsWithin :
      (now k : ℕ) (w : World F)
      → k ≤ 5
      → EndsWithin (4 * (5 - k)) (attempt_loop fl id_after now k w).1
  unfolding attempt_loop
  attempt_loop-EndsWithin now zero w h =
      let s = w.store in
      let begun : World F = record w {
        store = record s { attempt = 0; tunnel = selecting_transport };
      } in
      weaken _ (select-EndsWithin now 0 begun (omega arith)) (omega arith)
  attempt_loop-EndsWithin now (suc k) w h = ground arith

  attempt_loop_first : (now : ℕ) (w : World F) → EndsWithin 19 (attempt_loop fl id_after now 0 w).1
  unfolding attempt_loop
  attempt_loop_first now w =
      let s = w.store in
      let begun : World F = record w {
        store = record s { attempt = 0; tunnel = selecting_transport };
      } in
      select-EndsWithin now 0 begun (omega arith)

  escalate-EndsWithin :
      (now k : ℕ) (w : World F)
      → k < 5
      → EndsWithin (4 * (5 - k) - 3) (escalate fl id_after now k w).1
  unfolding escalate
  escalate-EndsWithin now k w h =
      let s = w.store in
      elim (Bool-cases (transport_eq (ladder_at (suc (ladder_index s.transport))) s.transport)) [
        | inl last ↦
            rw (last, escalate)
              (weaken (attempt_loop fl id_after now (suc k) w).1
                (attempt_loop-EndsWithin now (suc k) w h) (omega arith))
        | inr higher ↦ rw (higher, escalate) (h, omega arith)
      ]

  fail_attempt-EndsWithin :
      (now k : ℕ) (best : DecisionExplanation F) (w : World F)
      → k < 5
      → EndsWithin (4 * (5 - k) - 3) (fail_attempt fl id_after now k best w).1
  unfolding fail_attempt
  fail_attempt-EndsWithin now k best w h =
      escalate-EndsWithin now k (record_failure fl id_after now best w) h

  -- A live run that is resumed is nearer to its end, in one of the five attempts.
  pub advance-EndsWithin :
      (d : Draw F) (ph : Phase F) (w : World F)
      → IsWithin ph
      → EndsWithin (left ph - 1) (advance fl id_after d ph w).1
  unfolding advance
  advance-EndsWithin d prepare w h = omega arith
  advance-EndsWithin d check w h = attempt_loop_first d.now w
  advance-EndsWithin d (backoff k) w h = select-EndsWithin d.now k w h
  advance-EndsWithin d (dial k best sc) w h = omega arith
  advance-EndsWithin d (shake k best sc) w h =
      elim (Bool-cases
        (fl.lt d.failure (fail_chance fl id_after sc best.transport w.store.active_cms))) [
          | inl fails ↦
              rw (fails, advance)
                (weaken (fail_attempt fl id_after d.now k best w).1
                  (fail_attempt-EndsWithin d.now k best w h) (omega arith))
          | inr holds ↦ rw (holds, advance) (tt, omega arith)
        ]
  advance-EndsWithin d (switch k) w h =
      weaken (attempt_loop fl id_after d.now (suc k) w).1
        (attempt_loop-EndsWithin d.now (suc k) w h) (omega arith)
  advance-EndsWithin d finished w h = omega arith

  -- A run that waits repeatedly, and what others do to the world during each wait.
  unfoldable pub resume_all :
      ℕ → List (Draw F × (World F → World F)) → World F × Phase F → World F × Phase F
  resume_all token [] (w, ph) = (w, ph)
  resume_all token ((d, others) ∷ ds) (w, ph) =
      resume_all token ds (resume fl id_after token d ph (others w))

  resume-EndsWithin :
      (token : ℕ) (d : Draw F) (ph : Phase F) (w : World F)
      → IsWithin ph
      → EndsWithin (left ph - 1) (resume fl id_after token d ph w).1
  unfolding resume
  resume-EndsWithin token d ph w h = elim (Bool-cases (is_alive token w)) [
    | inl alive ↦ rw (alive, resume) (advance-EndsWithin d ph w h)
    | inr stale ↦ rw (stale, resume) (tt, omega arith)
  ]

  resume_all-left :
      (token : ℕ) (ds : List (Draw F × (World F → World F))) (r : World F × Phase F)
      → IsWithin r.1
      → EndsWithin (left r.1 - length ds) (resume_all token ds r).1
  unfolding resume_all
  resume_all-left token [] (w, ph) h = (h, omega arith)
  resume_all-left token ((d, others) ∷ ds) (w, ph) h =
      let (within, fewer) = resume-EndsWithin token d ph (others w) h in
      weaken _ (resume_all-left token ds _ within) (omega arith)

left_bound : {F : Type 0} (ph : Phase F) → left ph ≤ 21
left_bound prepare = omega arith
left_bound check = omega arith
left_bound (backoff k) = omega arith
left_bound (dial k best sc) = omega arith
left_bound (shake k best sc) = omega arith
left_bound (switch k) = omega arith
left_bound finished = omega arith

finished_of_left : {F : Type 0} (ph : Phase F) → IsWithin ph → left ph ≤ 0 → ph ≡ finished
finished_of_left prepare h l = absurd (omega arith)
finished_of_left check h l = absurd (omega arith)
finished_of_left (backoff k) h l = absurd (omega arith)
finished_of_left (dial k best sc) h l = absurd (omega arith)
finished_of_left (shake k best sc) h l = absurd (omega arith)
finished_of_left (switch k) h l = absurd (omega arith)
finished_of_left finished h l = refl

-- A run that waits in any phase is finished after at most 21 resumptions, whatever the draws are and
-- whatever else happens to the world during its waits.
pub resume_all-finished :
    (fl : Floats) (id_after : Text → Text → Bool) (token : ℕ)
    (ds : List (Draw fl.F × (World fl.F → World fl.F))) (w : World fl.F) (ph : Phase fl.F)
    → IsWithin ph
    → 21 ≤ length ds
    → (resume_all fl id_after token ds (w, ph)).1 ≡ finished
resume_all-finished fl id_after token ds w ph h enough =
    let (within, few) = resume_all-left fl id_after token ds (w, ph) h in
    finished_of_left _ within (omega (arith, left_bound ph))
