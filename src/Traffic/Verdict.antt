-- ===== src/Traffic/Verdict.antt =====
-- scripts/traffic_gen.py: report after any run.
use mathlib.Core.List.{append_assoc, append-nil}
use pruet_web_dev.Base.{
  ℕ, suc, ◌+◌, ◌*◌, ◌/◌, ◌≤◌, ◌<◌, ◌≡◌, ◌↔◌, refl, sym, ap, ◌∙◌, subst, Bool, true, false, not,
  ◌&&◌, some, List, [], ◌∷◌, ◌++◌, map, ◌==◌, ltb, leb, arith, All, length, count, filter,
  if◌then◌else◌, Bool-cases, Option-cases, inl, inr,
}
use pruet_web_dev.Text.{truthy}
use pruet_web_dev.Traffic.{
  p99_limit, microseconds, Call, Stats, no_stats, is_bad, count_call, record_call, record_calls,
  sum_ok, percentile, criteria, report,
}
use pruet_web_dev.Traffic.Ranks.{below, percentile_below}

abbrev errors : Stats → ℕ
errors s = s.client_errors + s.server_errors + s.network_errors + s.data_errors

abbrev total : Stats → ℕ
total s = sum_ok s + s.client_errors + s.server_errors + s.network_errors + s.data_errors

-- a call raises one counter: one of the four of the errors, or one of the others
record Counted (c : Call) (s s' : Stats) : Type 0 where
  errors_rise : errors s' ≡ (if is_bad c then 1 else 0) + errors s
  total_rises : total s' ≡ suc (total s)
  latencies_stay : s'.latencies ≡ s.latencies

count_call-Counted : (c : Call) (s : Stats) → Counted c s (count_call c s)
unfolding count_call
count_call-Counted c s = record {
  errors_rise = ground arith;
  total_rises = ground arith;
  latencies_stay = ground arith;
}

record Recorded (c : Call) (s s' : Stats) : Type 0 where
  errors_rise : errors s' ≡ (if is_bad c then 1 else 0) + errors s
  total_rises : total s' ≡ suc (total s)
  latencies_grow : s'.latencies ≡ s.latencies ++ c.latency ∷ []

record_call-Recorded : (c : Call) (s : Stats) → Recorded c s (record_call c s)
unfolding record_call
record_call-Recorded c s =
    let kept = count_call-Counted c (record s { latencies = s.latencies ++ c.latency ∷ [] }) in
    elim (Bool-cases (is_bad c && ltb (length s.samples) 8)) [
      | inl e ↦ rw e (record {
        errors_rise = kept.errors_rise;
        total_rises = kept.total_rises;
        latencies_grow = kept.latencies_stay;
      })
      | inr e ↦ rw e (record {
        errors_rise = kept.errors_rise;
        total_rises = kept.total_rises;
        latencies_grow = kept.latencies_stay;
      })
    ]

abbrev latencies_of : List Call → List ℕ
latencies_of cs = map (λ (c : Call). c.latency) cs

errors-record_calls :
    (cs : List Call) (s : Stats) → errors (record_calls cs s) ≡ count is_bad cs + errors s
unfolding record_calls
errors-record_calls [] s = omega arith
errors-record_calls (c ∷ cs) s =
    let rest = errors-record_calls cs (record_call c s) in
    let one = (record_call-Recorded c s).errors_rise in omega arith

total-record_calls : (cs : List Call) (s : Stats) → total (record_calls cs s) ≡ length cs + total s
unfolding record_calls
total-record_calls [] s = omega arith
total-record_calls (c ∷ cs) s =
    let rest = total-record_calls cs (record_call c s) in
    let one = (record_call-Recorded c s).total_rises in omega arith

latencies-record_calls :
    (cs : List Call) (s : Stats) → (record_calls cs s).latencies ≡ s.latencies ++ latencies_of cs
unfolding record_calls
latencies-record_calls [] s = sym (append-nil s.latencies)
latencies-record_calls (c ∷ cs) s =
    latencies-record_calls cs (record_call c s)
    ∙ ap (λ ls. ls ++ latencies_of cs) (record_call-Recorded c s).latencies_grow
    ∙ append_assoc s.latencies (c.latency ∷ []) (latencies_of cs)

-- a call that was answered below 400, without a problem
abbrev pub IsAnswered : Call → Type 0
IsAnswered c =
    (status : ℕ) × ((c.status ≡ some status) × ((status < 400) × (truthy c.problem ≡ false)))

IsAnswered-iff : (c : Call) → (is_bad c ≡ false) ↔ IsAnswered c
IsAnswered-iff c = (to, from)
  where
    to : is_bad c ≡ false → IsAnswered c
    to h = elim (Option-cases c.status) [
      | inl e ↦ absurd (ground arith)
      | inr (s, e) ↦ (s, (e, (ground arith, ground arith)))
    ]

    from : IsAnswered c → is_bad c ≡ false
    from (s, (e, (low, sound))) = ground arith

none_bad : (cs : List Call) → (count is_bad cs ≡ 0) ↔ All IsAnswered cs
none_bad [] = (λ h. tt, λ h. refl)
none_bad (c ∷ cs) =
    let rest = none_bad cs in
    let one = IsAnswered-iff c in
    (
      λ h. (one.0 (ground arith), rest.0 (ground arith)),
      λ h. let good = one.1 h.0 in let all = rest.1 h.1 in ground arith,
    )

below-latencies :
    (limit : ℕ) (cs : List Call)
    → below limit (latencies_of cs) ≡ count (λ c. ltb c.latency limit) cs
below-latencies limit [] = refl
below-latencies limit (c ∷ cs) = let rest = below-latencies limit cs in ground arith

length-latencies : (cs : List Call) → length (latencies_of cs) ≡ length cs
length-latencies [] = refl
length-latencies (c ∷ cs) = ap suc (length-latencies cs)

-- the run kept up the rate
abbrev pub IsFastEnough : ℕ → ℕ → ℕ → Type 0
IsFastEnough n elapsed min_rps =
    (elapsed ≡ 0 → min_rps ≡ 0) × (min_rps * elapsed ≤ n * microseconds)

-- the status is 0 if every criterion holds
abbrev status_of : List Bool → ℕ
status_of bs = elim (filter not bs) [ [] ↦ 0 | c ∷ cs ↦ 1 ]

status_zero : (bs : List Bool) → (status_of bs ≡ 0) ↔ All (λ (b : Bool). b ≡ true) bs
status_zero [] = (λ h. tt, λ h. refl)
status_zero (true ∷ bs) = let rest = status_zero bs in (λ h. (refl, rest.0 h), λ h. rest.1 h.1)
status_zero (false ∷ bs) = (λ h. absurd (ground arith), λ h. absurd (ground arith))

rate_iff :
    (n elapsed min_rps : ℕ)
    → ((if elapsed == 0 then min_rps == 0 else leb (min_rps * elapsed) (n * microseconds)) ≡ true)
      ↔ IsFastEnough n elapsed min_rps
rate_iff n elapsed min_rps = (λ h. (λ e. ground arith, to h), λ h. from h)
  where
    to :
        (if elapsed == 0 then min_rps == 0 else leb (min_rps * elapsed) (n * microseconds)) ≡ true
        → min_rps * elapsed ≤ n * microseconds
    to h = elim (Bool-cases (elapsed == 0)) [
      | inl e ↦ let none_left : elapsed ≡ 0 = ground arith in rw none_left (omega arith)
      | inr e ↦ ground arith
    ]

    from :
        IsFastEnough n elapsed min_rps
        → (if elapsed == 0 then min_rps == 0 else leb (min_rps * elapsed) (n * microseconds)) ≡ true
    from (idle, enough) = elim (Bool-cases (elapsed == 0)) [
      | inl e ↦ let none_left = idle (ground arith) in ground arith
      | inr e ↦ ground arith
    ]

module _ (s : Stats) (elapsed min_rps : ℕ) where
  criteria_iff : All (λ (b : Bool). b ≡ true) (criteria s elapsed min_rps) ↔ (
      (errors s ≡ 0)
      × ((percentile s.latencies 99 < p99_limit) × IsFastEnough (total s) elapsed min_rps))
  unfolding criteria
  criteria_iff = (
    λ h. (
      ground (arith, h.0, h.1.0, h.1.1.0, h.1.1.1.0),
      (ground (arith, h.1.1.1.1.0), (rate_iff (total s) elapsed min_rps).0 h.1.1.1.1.1.0),
    ),
    λ h. (
      ground (arith, h.0),
      (
        ground (arith, h.0),
        (
          ground (arith, h.0),
          (
            ground (arith, h.0),
            (ground (arith, h.1.0), ((rate_iff (total s) elapsed min_rps).1 h.1.1, tt)),
          ),
        ),
      ),
    ),
  )

  report_zero : (report s elapsed min_rps ≡ 0) ↔ (
      (errors s ≡ 0)
      × ((percentile s.latencies 99 < p99_limit) × IsFastEnough (total s) elapsed min_rps))
  unfolding report
  report_zero = (
    λ h. criteria_iff.0 ((status_zero (criteria s elapsed min_rps)).0 h),
    λ h. (status_zero (criteria s elapsed min_rps)).1 (criteria_iff.1 h),
  )

-- The load generator reports success exactly if every call of the run was answered below 400 without a
-- problem, the calls under the latency limit are more than 99 of 100 of all calls, rounded down, if there
-- are any, and the run made the minimum of calls in every second on average, which a run of no time
-- does only if the minimum is 0.
pub report-IsPassed :
    (calls : List Call) (elapsed min_rps : ℕ)
    → (report (record_calls calls no_stats) elapsed min_rps ≡ 0) ↔ (
        All IsAnswered calls
        × ((0 < length calls → length calls * 99 / 100 < count (λ c. ltb c.latency p99_limit) calls)
            × IsFastEnough (length calls) elapsed min_rps))
report-IsPassed calls elapsed min_rps =
    let s = record_calls calls no_stats in
    let verdict = report_zero s elapsed min_rps in
    let wrong : errors s ≡ count is_bad calls = errors-record_calls calls no_stats ∙ omega arith in
    let size : total s ≡ length calls = total-record_calls calls no_stats ∙ omega arith in
    let times : s.latencies ≡ latencies_of calls = latencies-record_calls calls no_stats in
    let rank = percentile_below p99_limit (latencies_of calls) (omega arith) in
    let few = below-latencies p99_limit calls in
    let many = length-latencies calls in
    let sound = none_bad calls in
    (
      λ h.
          let (a, (b, c)) = verdict.0 h in
          (
            sound.0 (sym wrong ∙ a),
            (
              λ some_call.
                  rw (← few, ← many)
                    (rank.0 (subst (λ ls. percentile ls 99 < p99_limit) times b)
                      (rw many some_call)),
              subst (λ n. IsFastEnough n elapsed min_rps) size c,
            ),
          ),
      λ h.
          let (a, (b, c)) = h in
          verdict.1 (
            wrong ∙ sound.1 a,
            (
              subst (λ ls. percentile ls 99 < p99_limit) (sym times)
                  (rank.1 (λ some_call. rw (few, many) (b (subst (λ n. 0 < n) many some_call)))),
              subst (λ n. IsFastEnough n elapsed min_rps) (sym size) c,
            ),
          ),
    )
