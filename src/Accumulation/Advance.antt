-- ===== src/Accumulation/Advance.antt =====
-- What `advance_risk_state` (src/autobit/core/risk_state.py) does to the state.
use auto_bit.Prelude.{
  ℕ, ◌+◌, ◌*◌, ◌≤◌, ◌<◌, Bool, true, false, not, ◌||◌, ltb, ◌≡◌, refl, Option, none, some, ok,
  Result, >>=-ok, raise_if-ok, or_raise, length, drop, arith, sym, ◌∙◌, ap,
}
use auto_bit.Prelude.Int.{ℤ, pos, negsuc}
use auto_bit.Double.{Double, ◌≼◌, ◌≺◌, nought}
use auto_bit.Double.Laws.{IsDouble, le-max_left, le-max_right}
use auto_bit.Python.{TimeValue, aware, unusable, microsecond_hour}
use auto_bit.Risk.Snapshot.{RiskConfig}
use auto_bit.Accumulation.Facts.{
  RiskState, RiskObservation, RiskStateError, Checked, week, precedes, time_of, cursor_of, as_bool,
  check_trades, check_bar, clear_start, set_start, date_overflow, validate_observation,
  timestamp_not_aware, equity_invalid, initial_equity_invalid, flags_not_boolean, cursor_ahead,
}
use auto_bit.Accumulation.{weekly_baseline, commit, advance_risk_state, count_losses}

or_raise-ok {ℓ κ} :
    {E : Type ℓ} {A : Type κ} (o : Option A) (e : E) {a : A} → or_raise o e ≡ ok a → o ≡ some a
or_raise-ok none e h = absurd (ground (arith, h))
or_raise-ok (some x) e h = ground (arith, h)

time_lem : (v : TimeValue) {t : ℕ} → time_of v ≡ some t → v ≡ aware t
time_lem (aware u) h = ground (arith, h)
time_lem unusable h = absurd (ground (arith, h))

cursor_lem : (z : ℤ) (count : ℕ) {n : ℕ} → cursor_of z count ≡ some n → (z ≡ pos n) × (n ≤ count)
cursor_lem (pos m) count h = (ground (arith, h), ground (arith, h))
cursor_lem (negsuc m) count h = absurd (ground (arith, h))

cooldown_lem :
    (start : Option ℕ) (test over : Bool) (bar started : ℕ)
    → start ≡ some started
    → bar < started + 72 * microsecond_hour
    → clear_start (set_start start test bar) 72 bar over ≡ some started
cooldown_lem none test over bar started e before = absurd (ground (arith, e))
cooldown_lem (some t) test over bar started e before = ground (arith, e, before)

module _ {ℓ} {F : Type ℓ} ⦃d : Double F⦄ where
  -- What the checks establish.
  record Passed (s : RiskState F) (o : RiskObservation F) (c : Checked) : Type ℓ where
    clock : o.now ≡ aware c.bar_at
    finite : d.is_finite o.equity ≡ true
    nonnegative : (o.equity ≺ nought) ≡ false
    counted : cursor_of s.processed_trade_count (length o.closed_trades) ≡ some c.cursor
    ordered : precedes c.bar_at s.last_risk_at ≡ false

  check_bar-ordered :
      (s : RiskState F) (o : RiskObservation F) (cursor : ℕ) (last : Option ℕ) (now : ℕ)
      → check_bar s o cursor last now ≡ ok tt
      → precedes now last ≡ false
  check_bar-ordered s o cursor none now h = refl
  check_bar-ordered s o cursor (some t) now h = (raise_if-ok (ltb now t) _ _ h).0

  passed :
      (s : RiskState F) (o : RiskObservation F) (now cursor : ℕ) (bar_valid healthy : Bool)
      (c : Checked)
      → o.now ≡ aware now
      → (not (d.is_finite o.equity) || o.equity ≺ nought) ≡ false
      → cursor_of s.processed_trade_count (length o.closed_trades) ≡ some cursor
      → precedes now s.last_risk_at ≡ false
      → (let r : Result RiskStateError Checked =
            ok (record {
              bar_at = now;
              cursor = cursor;
              bar_valid = bar_valid;
              healthy = healthy;
            }) in
          r ≡ ok c)
      → Passed s o c
  passed s o now cursor bar_valid healthy c clock equity counted ordered same =
      let bar : now ≡ c.bar_at = ground (arith, same) in
      let count : cursor ≡ c.cursor = ground (arith, same) in
      record {
        clock = clock ∙ ap aware bar;
        finite = ground (arith, equity);
        nonnegative = ground (arith, equity);
        counted = rw (← count) counted;
        ordered = ap (λ t. precedes t s.last_risk_at) (sym bar) ∙ ordered;
      }

  validate_observation-Passed :
      (s : RiskState F) (o : RiskObservation F) (c : Checked)
      → validate_observation s o ≡ ok c
      → Passed s o c
  unfolding validate_observation
  validate_observation-Passed s o c h =
      let (now, now_ok, h) = >>=-ok (or_raise (time_of o.now) timestamp_not_aware) _ h in
      let (equity_ok, h) =
        raise_if-ok (not (d.is_finite o.equity) || o.equity ≺ nought) equity_invalid _ h in
      let (initial_ok, h) =
        raise_if-ok (not (d.is_finite s.initial_equity) || s.initial_equity ≼ nought)
          initial_equity_invalid _ h in
      let (bar_valid, _, h) =
        >>=-ok (or_raise (as_bool o.volatility_bar_valid) flags_not_boolean) _ h in
      let (healthy, _, h) = >>=-ok (or_raise (as_bool o.system_healthy) flags_not_boolean) _ h in
      let (cursor, cursor_ok, h) =
        >>=-ok (or_raise (cursor_of s.processed_trade_count (length o.closed_trades)) cursor_ahead)
          _ h in
      let (_, _, h) = >>=-ok (check_trades now cursor s.last_risk_at 0 none o.closed_trades) _ h in
      let (_, bar_ok, h) = >>=-ok (check_bar s o cursor s.last_risk_at now) _ h in
      passed s o now cursor bar_valid healthy c (time_lem o.now (or_raise-ok _ _ now_ok)) equity_ok
        (or_raise-ok _ _ cursor_ok) (check_bar-ordered s o cursor s.last_risk_at now bar_ok) h

  -- The state after a bar: its clock is the observation's and no earlier than before, its peak is
  -- at least the former peak and the equity, its trade cursor is at the end of the trades, and
  -- its streak counts the trades after the former cursor, and those alone.
  pub record Advanced (s : RiskState F) (o : RiskObservation F) (t : RiskState F) : Type ℓ where
    pub bar : ℕ
    pub cursor : ℕ
    pub clock : o.now ≡ aware bar
    pub last_bar : t.last_risk_at ≡ some bar
    pub ordered : precedes bar s.last_risk_at ≡ false
    pub higher_peak : (s.equity_peak ≼ t.equity_peak) ≡ true
    pub over_equity : (o.equity ≼ t.equity_peak) ≡ true
    pub equity_kept : t.last_equity ≡ o.equity
    pub former_cursor : s.processed_trade_count ≡ pos cursor
    pub cursor_bound : cursor ≤ length o.closed_trades
    pub new_cursor : t.processed_trade_count ≡ pos (length o.closed_trades)
    pub streak :
        t.consecutive_losses ≡ count_losses s.consecutive_losses (drop cursor o.closed_trades)
    pub cooldown :
        (started : ℕ)
        → s.recovery_started_at ≡ some started
        → bar < started + 72 * microsecond_hour
        → t.recovery_started_at ≡ some started

  commit-Advanced :
      (w : IsDouble F) (s : RiskState F) (o : RiskObservation F) (config : RiskConfig F)
      (c : Checked) (weekly : F)
      → (s.equity_peak ≼ s.equity_peak) ≡ true
      → Passed s o c
      → Advanced s o (commit s o config c weekly)
  unfolding commit
  commit-Advanced w s o config c weekly proper p =
      let count = cursor_lem s.processed_trade_count (length o.closed_trades) p.counted in
      let equity = w.refl_of_finite o.equity p.finite in
      record {
        bar = c.bar_at;
        cursor = c.cursor;
        clock = p.clock;
        last_bar = refl;
        ordered = p.ordered;
        higher_peak = le-max_left w s.equity_peak o.equity proper;
        over_equity = le-max_right w s.equity_peak o.equity proper equity;
        equity_kept = refl;
        former_cursor = count.0;
        cursor_bound = count.1;
        new_cursor = refl;
        streak = refl;
        cooldown = λ started. cooldown_lem s.recovery_started_at _ _ c.bar_at started;
      }

  -- From a state whose equity peak is no NaN, an observation that `advance_risk_state` accepts
  -- moves the clock to its time, never back, and the cursor to the end of its trades; it counts
  -- each new trade into the streak, never lowers the peak, and does not end a drawdown halt's 72
  -- hours early.
  pub advance_risk_state-Advanced :
      (w : IsDouble F) (s t : RiskState F) (o : RiskObservation F) (config : RiskConfig F)
      → (s.equity_peak ≼ s.equity_peak) ≡ true
      → advance_risk_state s o config ≡ ok t
      → Advanced s o t
  unfolding advance_risk_state
  advance_risk_state-Advanced w s t o config proper h =
      let (c, valid, h) = >>=-ok (validate_observation s o) _ h in
      let (_, h) = raise_if-ok (ltb c.bar_at week) date_overflow _ h in
      let (weekly, _, h) = >>=-ok (weekly_baseline s c.bar_at o.equity) _ h in
      let made =
        commit-Advanced w s o config c weekly proper (validate_observation-Passed s o c valid) in
      let same : commit s o config c weekly ≡ t = ground (arith, h) in rw (← same) made
