-- ===== src/Interval.antt =====
-- cmd/syscert/interval.go: the interval flag and the self-scheduling loop. `time.ParseDuration` is a
-- parameter. What the signals do is a list of rounds, one for each cycle that is started.
use syscert.Base.{
  ℕ, zero, suc, ◌≤◌, ◌≡◌, ◌≢◌, refl, ap, ◌∙◌, Bool, true, false, ◌||◌, Option, none, some, List, [],
  ◌∷◌, ◌++◌, arith, if◌then◌else◌, Bool-cases, inl, inr, ◌↔◌,
}
use syscert.Base.Int.{ℤ, pos, negsuc, ltb_ℤ}
use syscert.Go.Strings.{Str, is_empty}
use syscert.Os.{Error, text, Result, ok, err}

-- time.Minute in nanoseconds.
abbrev pub min_interval : ℕ
min_interval = 60000000000

unfoldable pub check_interval : Str → Option ℤ → Result ℤ
check_interval s none = err (text "invalid --interval %q: %v" (s ∷ []))
check_interval s (some d) =
    if ltb_ℤ d (pos min_interval)
    then err
        (text "--interval %s is too short; the minimum is %s (avoids hammering the CA)" (s ∷ []))
    else ok d

unfoldable pub parse_interval : (Str → Option ℤ) → Str → Result ℤ
unfolding check_interval
parse_interval parse_duration s =
    if is_empty s then ok (pos 0) else check_interval s (parse_duration s)

interval_checked :
    (s : Str) (o : Option ℤ) (d : ℤ)
    → (check_interval s o ≡ ok d) ↔ ((o ≡ some d) × (n : ℕ) × (d ≡ pos n) × (min_interval ≤ n))
unfolding check_interval
interval_checked s none d = (λ h. cc, λ h. cc h.0)
interval_checked s (some (pos m)) d = elim (Bool-cases (ltb_ℤ (pos m) (pos min_interval))) [
  | inl y ↦ rw y (λ h. cc, λ h. absurd (ground (arith, h.0, h.2, h.3)))
  | inr n ↦ rw n (λ h. (ground arith, m, ground arith, ground arith), λ h. ground (arith, h.0))
]
interval_checked s (some (negsuc m)) d = (λ h. ground arith, λ h. ground (arith, h.0, h.2))

-- The flag is taken as one run if it is empty. Otherwise it is accepted exactly if it parses to at
-- least one minute, and then it is that duration.
parse_interval_cases :
    (parse_duration : Str → Option ℤ) (s : Str) (d : ℤ)
    → (parse_interval parse_duration [] ≡ ok (pos 0))
      × (s ≢ []
          → (parse_interval parse_duration s ≡ ok d)
            ↔ ((parse_duration s ≡ some d) × (n : ℕ) × (d ≡ pos n) × (min_interval ≤ n)))
unfolding parse_interval
parse_interval_cases parse_duration [] d = (refl, λ ne. absurd (ne refl))
parse_interval_cases parse_duration (c ∷ s) d =
    (refl, λ _. interval_checked (c ∷ s) (parse_duration (c ∷ s)) d)

-- What the signals do in one round: whether the context is cancelled when the cycle ends, and
-- whether it is cancelled during the sleep.
pub record Round : Type 0 where
  pub after_cycle : Bool
  pub during_sleep : Bool

pub data Event : Type 0 where
  cycle_ran : Event
  logged : Error → Event
  slept : Event
  interrupted : Event

abbrev log_failure : Option Error → List Event
log_failure none = []
log_failure (some e) = logged e ∷ []

-- The end of a round: the test of the context after the cycle, and the sleep. `later` is what the
-- loop does from the next round on.
abbrev end_round :
    {S : Type 0}
    → Bool
    → Bool
    → Option Error
    → S
    → List Event × S × Option ℕ
    → List Event × S × Option ℕ
end_round true asleep failed t later = (cycle_ran ∷ log_failure failed, t, some 0)
end_round false true failed t later =
    (cycle_ran ∷ (log_failure failed ++ (interrupted ∷ [])), t, some 0)
end_round false false failed t later =
    (cycle_ran ∷ (log_failure failed ++ (slept ∷ later.0)), later.1, later.2)

module _ {S : Type 0} (cycle : S → Option Error × S) where
  -- What the loop does over the rounds: its events, the state, and its exit code if it returns.
  unfoldable pub run_interval_loop : List Round → S → List Event × S × Option ℕ
  run_interval_loop [] s = ([], s, none)
  run_interval_loop (r ∷ rs) s =
      let later = run_interval_loop rs (cycle s).1 in
      end_round r.after_cycle r.during_sleep (cycle s).0 (cycle s).1 later

  abbrev pub iterate : ℕ → S → S
  iterate zero s = s
  iterate (suc n) s = iterate n (cycle s).1

abbrev pub cancelled : Round → Bool
cancelled r = r.after_cycle || r.during_sleep

-- The rounds up to the first that is cancelled, that one too.
abbrev pub rounds_run : List Round → ℕ
rounds_run [] = 0
rounds_run (r ∷ rs) = suc (if cancelled r then 0 else rounds_run rs)

abbrev pub any_cancelled : List Round → Bool
any_cancelled [] = false
any_cancelled (r ∷ rs) = cancelled r || any_cancelled rs

abbrev pub cycles : List Event → ℕ
cycles [] = 0
cycles (cycle_ran ∷ es) = suc (cycles es)
cycles (_ ∷ es) = cycles es

cycles-log :
    (f : Option Error) (es : List Event)
    → cycles (cycle_ran ∷ (log_failure f ++ es)) ≡ suc (cycles es)
cycles-log none es = refl
cycles-log (some e) es = refl

cycles-log_nil : (f : Option Error) → cycles (cycle_ran ∷ log_failure f) ≡ 1
cycles-log_nil none = refl
cycles-log_nil (some e) = refl

module _ {S : Type 0} (cycle : S → Option Error × S) where
  end_round_cases :
      (a b : Bool) (s : S) (later : List Event × S × Option ℕ) (n : ℕ) (again : Bool)
      → cycles later.0 ≡ n
      → later.1 ≡ iterate cycle n (cycle s).1
      → later.2 ≡ (if again then some 0 else none)
      → let out = end_round a b (cycle s).0 (cycle s).1 later in
        (cycles out.0 ≡ suc (if a || b then 0 else n))
        × (out.1 ≡ iterate cycle (suc (if a || b then 0 else n)) s)
        × (out.2 ≡ (if (a || b) || again then some 0 else none))
  end_round_cases true b s later n again p q r = (cycles-log_nil (cycle s).0, refl, refl)
  end_round_cases false true s later n again p q r = (cycles-log (cycle s).0 _, refl, refl)
  end_round_cases false false s later n again p q r = (cycles-log (cycle s).0 _ ∙ ap suc p, q, r)

  -- The loop runs one cycle for each round up to the first cancelled one and none after it, whatever
  -- the cycles return; it returns exactly when a round is cancelled, and then with code 0.
  pub run_interval_loop_cases :
      (rs : List Round) (s : S)
      → (cycles (run_interval_loop cycle rs s).0 ≡ rounds_run rs)
        × ((run_interval_loop cycle rs s).1 ≡ iterate cycle (rounds_run rs) s)
        × ((run_interval_loop cycle rs s).2 ≡ (if any_cancelled rs then some 0 else none))
  unfolding run_interval_loop
  run_interval_loop_cases [] s = (refl, refl, refl)
  run_interval_loop_cases (r ∷ rs) s =
      let (p, q, k) = run_interval_loop_cases rs (cycle s).1 in
      end_round_cases r.after_cycle r.during_sleep s (run_interval_loop cycle rs (cycle s).1)
        (rounds_run rs) (any_cancelled rs) p q k
