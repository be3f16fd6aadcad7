-- ===== src/Broker/Stops/Ladder.antt =====
-- The open stops that the loop of `_build_ledger` in src/autobit/execution/paper_broker.py keeps.
use text.Mathlib.Text.{◌==◌ as str_eq}
use auto_bit.Prelude.{
  All-snoc, keep-All, ◌≡◌, refl, Bool, true, false, not, ◌||◌, Option, none, some, List, [], ◌∷◌,
  ◌++◌, ok, raise_if, All, keep, OnOk, OnOk->>=, OnOk-ok, not-false, if_both, sym, OnSome,
  raise_if-ok, raise_if-passed, any, or_raise,
}
use mathlib.Core.Path.{subst}
use text.Mathlib.TextEquality.{eq_iff}
use auto_bit.Double.{Double}
use auto_bit.Store.{Texts}
use auto_bit.Store.Orders.{Decimal}
use auto_bit.Broker.{reconciliation, Clock, Evidence, PaperStop}
use auto_bit.Broker.Readers.{payload_text}
use auto_bit.Broker.Stops.{
  Stops, find_stop, last_stop, check_update, set_open, end_open, stop_event, stop_from_event,
  validate_stop_terminal,
}
use auto_bit.Broker.Collect.{
  EvidenceKind, order_created, order_status, fill, paper_order, paper_fill, paper_entry_context,
  paper_execution, paper_stop, other_kind, evidence_kind, Collected, collect_kind, collect,
  add_once, has_evidence, nothing_collected,
}

module _ {ℓ} {F : Type ℓ} ⦃m : Decimal F⦄ where
  -- `t` protects the same entry at a higher price.
  abbrev pub IsTighter : PaperStop F → PaperStop F → Type 0
  IsTighter s t =
      (m.lt (m.of_float s.stop_price) (m.of_float t.stop_price) ≡ true)
      × (str_eq t.source_id s.source_id ≡ true)

  -- Each stop is tighter than all before it.
  abbrev pub IsLadder : List (PaperStop F) → Type 0
  IsLadder [] = Unit
  IsLadder (s ∷ rest) = All (IsTighter s) rest × IsLadder rest

  -- The open stops are a ladder, and the active stop is the last of them.
  pub record IsGuarded (s : Stops F) : Type ℓ where
    pub ladder : IsLadder s.open_stops
    pub newest : s.active_stop ≡ last_stop s.open_stops

  abbrev pub KeepsGuard : Collected F → Type ℓ
  KeepsGuard s = IsGuarded s.stops

  pub keep-IsLadder :
      (test : PaperStop F → Bool) (xs : List (PaperStop F)) → IsLadder xs → IsLadder (keep test xs)
  keep-IsLadder test [] h = tt
  keep-IsLadder test (s ∷ xs) (h, hs) =
      elim (test s) as (λ b. IsLadder (elim b [ true ↦ s ∷ keep test xs | false ↦ keep test xs ])) [
        | true ↦ (keep-All (IsTighter s) test xs h, keep-IsLadder test xs hs)
        | false ↦ keep-IsLadder test xs hs
      ]

  last_stop-snoc : (xs : List (PaperStop F)) (c : PaperStop F) → last_stop (xs ++ (c ∷ [])) ≡ some c
  last_stop-snoc [] c = refl
  last_stop-snoc (s ∷ []) c = refl
  last_stop-snoc (s ∷ t ∷ rest) c = last_stop-snoc (t ∷ rest) c

  check_update-IsTighter :
      (active : Option (PaperStop F)) (c : PaperStop F)
      → check_update active c ≡ ok tt
      → OnSome (λ s. IsTighter s c) active
  check_update-IsTighter none c h = tt
  check_update-IsTighter (some s) c h =
      let (a, b) = raise_if-ok (not (str_eq c.source_id s.source_id)) reconciliation _ h in
      (not-false _ (raise_if-passed _ reconciliation b), not-false _ a)

-- What `decimal` documents of `<` between converted floats. The readers refuse a NaN.
pub record IsOrdered {ℓ} (F : Type ℓ) ⦃m : Decimal F⦄ : Type ℓ where
  pub lt_trans :
      (x y z : F)
      → m.lt (m.of_float x) (m.of_float y) ≡ true
      → m.lt (m.of_float y) (m.of_float z) ≡ true
      → m.lt (m.of_float x) (m.of_float z) ≡ true

module _ {ℓ} {F : Type ℓ} ⦃m : Decimal F⦄ (w : IsOrdered F) where
  IsTighter-trans : (s t u : PaperStop F) → IsTighter s t → IsTighter t u → IsTighter s u
  IsTighter-trans s t u (a, e) (b, f) = (
    w.lt_trans s.stop_price t.stop_price u.stop_price a b,
    rw (← (eq_iff t.source_id s.source_id).0 e) f,
  )

  All-IsTighter :
      (xs : List (PaperStop F)) (c : PaperStop F)
      → IsLadder xs
      → OnSome (λ s. IsTighter s c) (last_stop xs)
      → All (λ s. IsTighter s c) xs
  All-IsTighter [] c h p = tt
  All-IsTighter (s ∷ []) c h p = (p, tt)
  All-IsTighter (s ∷ t ∷ rest) c ((st, hs), h) p =
      let (tc, more) = All-IsTighter (t ∷ rest) c h p in (IsTighter-trans s t c st tc, (tc, more))

  IsLadder-snoc :
      (xs : List (PaperStop F)) (c : PaperStop F)
      → IsLadder xs
      → All (λ s. IsTighter s c) xs
      → IsLadder (xs ++ (c ∷ []))
  IsLadder-snoc [] c h p = (tt, tt)
  IsLadder-snoc (s ∷ xs) c (hs, h) (p, ps) =
      (All-snoc (IsTighter s) xs c hs p, IsLadder-snoc xs c h ps)

  set_open-IsGuarded :
      (e : Evidence F) (c : PaperStop F) (s : Stops F)
      → IsGuarded s
      → OnOk IsGuarded (set_open e c s)
  unfolding set_open
  set_open-IsGuarded e c s g =
      OnOk->>= IsGuarded (raise_if (any (λ k. str_eq k.stop_id c.stop_id) s.known) reconciliation) _
        λ _ _. OnOk->>= IsGuarded (check_update s.active_stop c) _ λ _ h. record {
          ladder = IsLadder-snoc s.open_stops c g.ladder (
              All-IsTighter s.open_stops c g.ladder (
                subst (OnSome (λ t. IsTighter t c)) g.newest
                  (check_update-IsTighter s.active_stop c h)));
          newest = sym (last_stop-snoc s.open_stops c);
        }

  module _ ⦃d : Double F⦄ ⦃x : Texts⦄ ⦃c : Clock⦄ where
    end_open-IsGuarded :
        (e : Evidence F) (s : Stops F) → IsGuarded s → OnOk IsGuarded (end_open e s)
    unfolding end_open
    end_open-IsGuarded e s g = OnOk->>= IsGuarded (payload_text e.payload "stop_id") _ λ stop_id _.
        OnOk->>= IsGuarded (or_raise (find_stop stop_id s.open_stops) reconciliation) _ λ stop _.
          OnOk->>= IsGuarded (validate_stop_terminal e stop) _ λ _ _. record {
            ladder = keep-IsLadder (λ t. not (str_eq t.stop_id stop_id)) s.open_stops g.ladder;
            newest = refl;
          }

    stop_event-IsGuarded :
        (e : Evidence F) (s : Stops F) → IsGuarded s → OnOk IsGuarded (stop_event e s)
    unfolding stop_event
    stop_event-IsGuarded e s g = OnOk->>= IsGuarded (payload_text e.payload "action") _ λ action _.
        if_both (OnOk IsGuarded) (str_eq action "SET")
          (OnOk->>= IsGuarded (stop_from_event e) _
            λ candidate _. set_open-IsGuarded e candidate s g)
          (if_both (OnOk IsGuarded) (str_eq action "CANCELED" || str_eq action "TRIGGERED")
            (end_open-IsGuarded e s g) tt)

    collect_kind-IsGuarded :
        (k : EvidenceKind) (e : Evidence F) (s : Collected F)
        → IsGuarded s.stops
        → OnOk KeepsGuard (collect_kind k e s)
    collect_kind-IsGuarded paper_stop e s g =
        OnOk->>= KeepsGuard (stop_event e s.stops) _
          λ t h. OnOk-ok IsGuarded (stop_event e s.stops) (stop_event-IsGuarded e s.stops g) h
    collect_kind-IsGuarded order_created e s g =
        OnOk->>= KeepsGuard (payload_text e.payload "order_id") _
          λ id _. OnOk->>= KeepsGuard (add_once id e s.created) _ λ _ _. g
    collect_kind-IsGuarded order_status e s g =
        OnOk->>= KeepsGuard (payload_text e.payload "order_id") _ λ id _.
          OnOk->>= KeepsGuard (raise_if (not (has_evidence id s.created)) reconciliation) _ λ _ _. g
    collect_kind-IsGuarded fill e s g =
        OnOk->>= KeepsGuard
          (raise_if (any (λ f. str_eq f.event_id e.event_id) s.raw_fills) reconciliation) _
          λ _ _. OnOk->>= KeepsGuard (payload_text e.payload "order_id") _ λ _ _. g
    collect_kind-IsGuarded paper_order e s g =
        OnOk->>= KeepsGuard (payload_text e.payload "order_id") _
          λ id _. OnOk->>= KeepsGuard (add_once id e s.order_metadata) _ λ _ _. g
    collect_kind-IsGuarded paper_fill e s g =
        OnOk->>= KeepsGuard (payload_text e.payload "fill_id") _
          λ id _. OnOk->>= KeepsGuard (add_once id e s.fill_metadata) _ λ _ _. g
    collect_kind-IsGuarded paper_entry_context e s g =
        OnOk->>= KeepsGuard (payload_text e.payload "order_id") _
          λ id _. OnOk->>= KeepsGuard (add_once id e s.entry_contexts) _ λ _ _. g
    collect_kind-IsGuarded paper_execution e s g =
        OnOk->>= KeepsGuard (payload_text e.payload "order_id") _
          λ id _. OnOk->>= KeepsGuard (add_once id e s.executions) _ λ _ _. g
    collect_kind-IsGuarded other_kind e s g = g

    collect-IsGuarded :
        (evidence : List (Evidence F)) (s : Collected F)
        → IsGuarded s.stops
        → OnOk KeepsGuard (collect evidence s)
    unfolding collect
    collect-IsGuarded [] s g = g
    collect-IsGuarded (e ∷ rest) s g =
        OnOk->>= KeepsGuard (collect_kind (evidence_kind e.event_type) e s) _ λ t h.
          collect-IsGuarded rest t
            (OnOk-ok KeepsGuard _ (collect_kind-IsGuarded (evidence_kind e.event_type) e s g) h)

    -- Whatever the events are, if the first loop of `_build_ledger` accepts them, then the open
    -- stops protect one entry, each at a higher price than all that were set before it, and the
    -- active stop is the last of them.
    pub collect-guards :
        (evidence : List (Evidence F)) → OnOk KeepsGuard (collect evidence nothing_collected)
    collect-guards evidence =
        collect-IsGuarded evidence nothing_collected (record { ladder = tt; newest = refl })
