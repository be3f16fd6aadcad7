-- ===== src/Broker/Ledger/Sound.antt =====
-- What holds of every ledger that `_build_ledger` of src/autobit/execution/paper_broker.py returns.
use auto_bit.Prelude.{
  ◌≡◌, true, false, not, ◌&&◌, Option, List, ok, raise_if, raise_if-passed, raise_if-ok, not-false,
  ltb, length, is_some, any, keep, OnOk, OnOk->>=, OnOk-ok, OnOk-raise_if,
}
use auto_bit.Double.{Double}
use auto_bit.Store.{Texts}
use auto_bit.Store.Payload.{Codec, buy, same_side}
use auto_bit.Domain.{halted}
use auto_bit.Store.Orders.{Decimal, is_active_status}
use auto_bit.Store.Snapshot.{Store, Snapshot, Renderer, replay_and_verify, state_after}
use auto_bit.Broker.{reconciliation, lift, Clock, Platform, Evidence, PaperOrder, PaperStop}
use auto_bit.Broker.Trades.{completed_trades}
use auto_bit.Broker.Stops.Ladder.{IsOrdered, IsLadder, KeepsGuard, collect-guards}
use auto_bit.Broker.Collect.{Collected, collect, nothing_collected}
use auto_bit.Broker.Entries.{Account, first_account}
use auto_bit.Broker.Ledger.Paid.{PaysAll, is_fill, collected_fills, balance_of-PaysAll}
use mathlib.Core.Path.{subst}
use auto_bit.Broker.Executions.{validate_executions}
use auto_bit.Broker.Positions.{validated_position_observations}
use auto_bit.Broker.Ledger.Ancestry.{validate_ancestry}
use auto_bit.Broker.Ledger.Protection.{same_members, validate_stops}
use auto_bit.Broker.Ledger.{
  PaperLedger, reserved, event_evidence, ledger_of, build_ledger, check_account, read_orders,
  check_contexts, keys, fill_ids, check_projection, generic_evidence, same_state, derived_position,
}
use auto_bit.Broker.Ledger.Money.{Balance, sorted_fills, first_balance, balance_of}

module _ {ℓ} {F : Type ℓ} ⦃m : Decimal F⦄ ⦃d : Double F⦄ ⦃p : Platform F⦄ ⦃x : Texts⦄ where
  -- The fills of the evidence take 100 in cash and no coins to an account, which is the snapshot's,
  -- rounded to floats; no account on the way is negative. At most one order is active; its sale is
  -- covered, and it is no purchase while coins are held. An open stop has coins to protect, the
  -- open stops are a ladder, and the trades are those of the fills.
  pub record IsSound (l : PaperLedger F) : Type ℓ where
    pub account : Account F
    pub settles :
        PaysAll (keep is_fill l.evidence) (record { cash = m.hundred; btc = m.zero }) account
    pub same_cash : d.eq (m.to_float account.cash) l.snapshot.cash ≡ true
    pub same_btc : d.eq (m.to_float account.btc) l.snapshot.btc_quantity ≡ true
    pub one_order : ltb 1 (length l.active_orders) ≡ false
    pub covered : m.lt account.btc (reserved m.zero l.active_orders) ≡ false
    pub no_pyramid :
        (any (λ o. same_side o.side buy) l.active_orders && m.lt m.zero account.btc) ≡ false
    pub protects : (is_some l.active_stop && not (m.lt m.zero account.btc)) ≡ false
    pub ladder : IsLadder l.open_stops
    pub booked : completed_trades l.fills ≡ ok l.trades

module _ {ℓ} {F : Type ℓ} ⦃m : Decimal F⦄ where
  check_account-passed :
      (active : List (PaperOrder F)) (a : Account F) (s : Option (PaperStop F))
      → check_account active a s ≡ ok tt
      → (ltb 1 (length active) ≡ false)
        × (m.lt a.btc (reserved m.zero active) ≡ false)
        × ((any (λ o. same_side o.side buy) active && m.lt m.zero a.btc) ≡ false)
        × ((is_some s && not (m.lt m.zero a.btc)) ≡ false)
  unfolding check_account
  check_account-passed active a s h =
      let (one, h1) = raise_if-ok (ltb 1 (length active)) reconciliation _ h in
      let (sales, h2) = raise_if-ok (m.lt a.btc (reserved m.zero active)) reconciliation _ h1 in
      let (flat, h3) =
        raise_if-ok (any (λ o. same_side o.side buy) active && m.lt m.zero a.btc) reconciliation _
          h2 in
      (one, sales, flat, raise_if-passed _ reconciliation h3)

module _ {ℓ} {F : Type ℓ} ⦃m : Decimal F⦄ ⦃d : Double F⦄ ⦃j : Codec F⦄ ⦃n : Renderer F⦄ ⦃x : Texts⦄
    ⦃c : Clock⦄ ⦃p : Platform F⦄ (w : IsOrdered F) where
  ledger_fills :
      (evidence : List (Evidence F)) (s : Collected F) (orders : List (PaperOrder F))
      (b : Balance F)
      → collect evidence nothing_collected ≡ ok s
      → balance_of s orders s.raw_fills first_balance ≡ ok b
      → PaysAll (keep is_fill evidence) first_account b.account
  ledger_fills evidence s orders b hs hb =
      subst (λ fills. PaysAll fills first_account b.account)
        (OnOk-ok (λ (t : Collected F). t.raw_fills ≡ keep is_fill evidence)
          (collect evidence nothing_collected) (collected_fills evidence) hs)
        (OnOk-ok (λ (z : Balance F). PaysAll s.raw_fills first_account z.account)
          (balance_of s orders s.raw_fills first_balance)
          (balance_of-PaysAll s orders s.raw_fills first_balance) hb)

  ledger_of-IsSound :
      (snapshot : Snapshot F) (evidence : List (Evidence F))
      → OnOk IsSound (ledger_of snapshot evidence)
  unfolding ledger_of
  ledger_of-IsSound snapshot evidence =
      OnOk->>= IsSound (collect evidence nothing_collected) _ λ s hs.
        OnOk->>= IsSound (read_orders s s.order_metadata) _ λ orders _.
          OnOk->>= IsSound (check_contexts s orders evidence s.entry_contexts) _ λ _ _.
            OnOk->>= IsSound
              (validate_executions evidence orders s.executions s.entry_contexts s.fills_by_order
                s.status_events)
              _
              λ _ _.
                OnOk->>= IsSound
                  (raise_if
                    (not (same_members (keys s.fill_metadata) (fill_ids orders s.fills_by_order)))
                    reconciliation)
                  _
                  λ _ _. OnOk->>= IsSound (validate_ancestry evidence s orders) _ λ _ _.
                    OnOk->>= IsSound (balance_of s orders s.raw_fills first_balance) _ λ b hb.
                      OnOk-raise_if IsSound (not (d.eq (m.to_float b.account.cash) snapshot.cash))
                        reconciliation _
                        λ hc.
                          OnOk-raise_if IsSound
                            (not (d.eq (m.to_float b.account.btc) snapshot.btc_quantity))
                            reconciliation _
                            λ hq.
                              let active = keep (λ o. is_active_status o.status) orders in
                              OnOk->>= IsSound
                                (check_projection orders active snapshot.pending_orders) _
                                λ _ _.
                                  OnOk->>= IsSound
                                    (check_account active b.account s.stops.active_stop) _
                                    λ _ ha.
                                      let fills = sorted_fills b.fills in
                                      OnOk->>= IsSound (completed_trades fills) _ λ trades ht.
                                        OnOk->>= IsSound
                                          (raise_if
                                            (not (generic_evidence s orders)
                                              && not (same_state snapshot.position_state halted)
                                              && not (
                                                  same_state snapshot.position_state
                                                    (derived_position active b.account)))
                                            reconciliation)
                                          _
                                          λ _ _.
                                            OnOk->>= IsSound
                                              (validate_stops evidence s orders fills) _
                                              λ _ _.
                                                OnOk->>= IsSound
                                                  (validated_position_observations evidence orders
                                                    fills)
                                                  _
                                                  λ _ _.
                                                    let (one, sales, flat, held) =
                                                      check_account-passed active b.account
                                                        s.stops.active_stop ha in
                                                    record {
                                                      account = b.account;
                                                      settles =
                                                          ledger_fills evidence s orders b hs hb;
                                                      same_cash = not-false _ hc;
                                                      same_btc = not-false _ hq;
                                                      one_order = one;
                                                      covered = sales;
                                                      no_pyramid = flat;
                                                      protects = held;
                                                      ladder =
                                                          (OnOk-ok KeepsGuard
                                                            (collect evidence nothing_collected)
                                                            (collect-guards w evidence) hs).ladder;
                                                      booked = ht;
                                                    }

  -- Whatever the store is, a ledger that `_build_ledger` returns is sound. Its FILL events, in
  -- order, take 100 in cash and no coins to the account: each purchase pays price and fee, each
  -- sale gets the price less the fee, and after none is the cash or are the coins negative. That
  -- account, rounded to floats, is the snapshot's. At most one order is active, its sale is covered
  -- by the coins, it is no purchase while coins are held, an open stop has coins to protect, each
  -- open stop is for the entry of the earlier ones and above them, and the trades are those of the
  -- fills.
  pub build_ledger-IsSound : (s : Store F) → OnOk IsSound (build_ledger s)
  unfolding build_ledger
  build_ledger-IsSound s = OnOk->>= IsSound (lift (replay_and_verify s)) _ λ r _.
      OnOk->>= IsSound (event_evidence s.events) _
        λ evidence _. ledger_of-IsSound (state_after s.events r) evidence
