-- ===== src/Auditor/Feed.antt =====
-- What reaches the updater of the bundles that come from other engines.
use pnf.Base.{
  ◌≡◌, refl, sym, ◌∙◌, ap, ◌≤◌, Option, none, some, List, [], ◌∷◌, ◌++◌, length, arith,
  length-append,
}
use mathlib.Core.List.{append_assoc, append-nil}
use pnf.Event.{FrameBundle}
use pnf.Updater.Routine.{Arrival, bundle_arrives, timer_fires, nagle}
use pnf.Updater.Nagle.{in_groups, begun, bundles_among, NoneEmpty, nagle-in_groups}
use pnf.Auditor.{
  Audit, new_audit, receive_raw, forward, room, Step, receives, receives_zero, closes, forwards,
  arrives, fires,
}

module _ {E : Type 0} where
  -- what an auditor can come to
  pub data Run : Audit E → Type 0 where
    begins : Run new_audit
    then_step : {a b : Audit E} → Run a → Step a b → Run b

  -- the bundle that the auditor holds
  abbrev pub in_hand : Option (FrameBundle E) → List (FrameBundle E)
  in_hand none = []
  in_hand (some b) = b ∷ []

  -- On the way to the updater: all that came is in a group that `nagle` has sent, or in the one that it
  -- has begun, or waits in the channel, or the auditor has it, in this order.
  pub record IsFed (a : Audit E) : Type 0 where
    pub in_order :
        in_groups (nagle none a.arrivals).0
          ++ (begun (nagle none a.arrivals).1 ++ (a.buffer ++ in_hand a.holding))
        ≡ a.given
    pub has_room : length a.buffer ≤ room
    pub none_empty : NoneEmpty (nagle none a.arrivals).0

  -- the same, before `nagle` has put it in groups
  record IsPassed (a : Audit E) : Type 0 where
    passed : bundles_among a.arrivals ++ (a.buffer ++ in_hand a.holding) ≡ a.given
    fits : length a.buffer ≤ room

  bundles_among-append :
      (as' bs : List (Arrival E))
      → bundles_among (as' ++ bs) ≡ bundles_among as' ++ bundles_among bs
  bundles_among-append [] bs = refl
  bundles_among-append (bundle_arrives b ∷ as') bs = ap (◌∷◌ b) (bundles_among-append as' bs)
  bundles_among-append (timer_fires ∷ as') bs = bundles_among-append as' bs

  receive_raw-IsPassed :
      (b : FrameBundle E) (a : Audit E) → a.holding ≡ none → IsPassed a → IsPassed (receive_raw b a)
  unfolding receive_raw
  receive_raw-IsPassed b a e p = record {
    passed =
        ap (λ xs. bundles_among a.arrivals ++ xs)
          (ap (λ xs. xs ++ (b ∷ [])) (sym (append-nil a.buffer)))
        ∙ sym (append_assoc (bundles_among a.arrivals) (a.buffer ++ []) (b ∷ []))
        ∙ ap (λ o. (bundles_among a.arrivals ++ (a.buffer ++ in_hand o)) ++ (b ∷ [])) (sym e)
        ∙ ap (λ xs. xs ++ (b ∷ [])) p.passed;
    fits = p.fits;
  }

  Step-IsPassed : (a c : Audit E) → Step a c → IsPassed a → IsPassed c
  unfolding forward
  Step-IsPassed a _ (receives b o e) p = receive_raw-IsPassed b a e p
  Step-IsPassed a _ (receives_zero o e) p = receive_raw-IsPassed _ a e p
  Step-IsPassed a _ (closes o) p = record { passed = p.passed; fits = p.fits }
  Step-IsPassed a _ (forwards b e space) p = record {
    passed =
        ap (λ xs. bundles_among a.arrivals ++ xs) (append-nil (a.buffer ++ (b ∷ [])))
        ∙ ap (λ o. bundles_among a.arrivals ++ (a.buffer ++ in_hand o)) (sym e)
        ∙ p.passed;
    fits = omega (arith, space, length-append a.buffer (b ∷ []));
  }
  Step-IsPassed a _ (arrives b rest e) p = record {
    passed =
        ap (λ xs. xs ++ (rest ++ in_hand a.holding))
          (bundles_among-append a.arrivals (bundle_arrives b ∷ []))
        ∙ append_assoc (bundles_among a.arrivals) (b ∷ []) (rest ++ in_hand a.holding)
        ∙ ap (λ xs. bundles_among a.arrivals ++ (xs ++ in_hand a.holding)) (sym e)
        ∙ p.passed;
    fits = omega (arith, ap length e, p.fits);
  }
  Step-IsPassed a _ fires p = record {
    passed =
        ap (λ xs. xs ++ (a.buffer ++ in_hand a.holding))
          (bundles_among-append a.arrivals (timer_fires ∷ [])
            ∙ append-nil (bundles_among a.arrivals))
        ∙ p.passed;
    fits = p.fits;
  }

  Run-IsPassed : (a : Audit E) → Run a → IsPassed a
  unfolding new_audit
  Run-IsPassed _ begins = record { passed = refl; fits = omega arith }
  Run-IsPassed c (then_step {a} r t) = Step-IsPassed a c t (Run-IsPassed a r)

  -- In every run of the auditor and of `nagle` behind it, in any order and whenever the timer fires:
  -- what the raw channel has given is in the groups that `nagle` has sent on, then in the group that
  -- it has begun, then in `Remote_bundles`, then with the auditor, in the order in which it came and
  -- each bundle once. The channel holds 50 at most, and no group that was sent is empty.
  pub Run-IsFed : (a : Audit E) → Run a → IsFed a
  Run-IsFed a r =
      let p = Run-IsPassed a r in
      let (groups, full) = nagle-in_groups none a.arrivals (λ e. cc) in
      let rest = a.buffer ++ in_hand a.holding in
      record {
        in_order =
            sym (
              append_assoc (in_groups (nagle none a.arrivals).0) (begun (nagle none a.arrivals).1)
                rest)
            ∙ ap (λ xs. xs ++ rest) groups
            ∙ p.passed;
        has_room = p.fits;
        none_empty = full;
      }
