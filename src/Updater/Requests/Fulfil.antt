-- ===== src/Updater/Requests/Fulfil.antt =====
-- Which pending requests a fulfilment answers.
use mathlib.Core.List.{Perm}
use mathlib.Core.List.Perm
use pnf.Base.{
  inl, inr, ◌≡◌, refl, ◌∙◌, ap, ℕ, zero, suc, ◌+◌, ◌≤◌, true, Option, some, List, [], ◌∷◌, ◌++◌,
  length, get_elem?, arith, ◌==◌, map, Option-cases, Bool-cases, ==→eq, ==_refl, get_elem?-of_ge,
}
use pnf.Base.Slices.{swap_remove, swap_remove-perm, length-swap_remove}
use pnf.Base.Outcome.{ok}
use pnf.DataWindow.{DataWindow, get}
use pnf.Game.{FrameData}
use pnf.Updater.{StateRequest, Message, respond}
use pnf.Updater.Requests.{Answers, fulfil_from, fulfil}

abbrev pub AllFor : ℕ → List StateRequest → Type 0
AllFor target [] = Unit
AllFor target (r ∷ rs) = (r.frame ≡ target) × AllFor target rs

module _ {G E : Type 0} where
  -- the responses to some requests
  abbrev pub responses : Option G → ℕ → List StateRequest → List (Message G E)
  responses game target = map (λ r. respond r.response game target)

  -- What a fulfilment at frame `target` does with the pending requests: some of those for that
  -- frame are answered, with its game, and all the others stay.
  pub record Fulfilled (game : Option G) (target : ℕ) (requests : List StateRequest)
      (a : Answers G E) : Type 0 where
    pub answered : List StateRequest
    pub for_target : AllFor target answered
    pub sent : a.1 ≡ responses game target answered
    pub split : Perm requests (answered ++ a.0)

  hit_Fulfilled :
      (d : FrameData G E) (target i : ℕ) (requests : List StateRequest) (r : StateRequest)
      (a : Answers G E)
      → get_elem? requests i ≡ some r
      → r.frame ≡ target
      → Fulfilled d.game target (swap_remove requests i) a
      → Fulfilled d.game target requests (a.0, respond r.response d.game target ∷ a.1)
  hit_Fulfilled d target i requests r a here hit f = record {
    answered = r ∷ f.answered;
    for_target = (hit, f.for_target);
    sent = ap (◌∷◌ (respond r.response d.game target)) f.sent;
    split = Perm.trans (swap_remove-perm requests i r here) (Perm.cons r f.split);
  }

  fulfil_from-Fulfilled :
      (w : DataWindow (FrameData G E)) (target : ℕ) (d : FrameData G E) (rounds i : ℕ)
      (requests : List StateRequest)
      → get w target ≡ ok d
      → length requests ≤ i + rounds
      → (a : Answers G E) × (fulfil_from w target (suc rounds) i requests ≡ ok a)
        × Fulfilled d.game target requests a
  unfolding fulfil_from
  fulfil_from-Fulfilled w target d zero i requests e h =
      let stop = get_elem?-of_ge requests i (omega arith) in
      (
        (requests, []),
        rw (stop, fulfil_from),
        record { answered = []; for_target = tt; sent = refl; split = Perm.rfl },
      )
  fulfil_from-Fulfilled w target d (suc rounds) i requests e h =
      elim (Option-cases (get_elem? requests i)) [
        | inl stop ↦ (
          (requests, []),
          rw (stop, fulfil_from),
          record { answered = []; for_target = tt; sent = refl; split = Perm.rfl },
        )
        | inr (r, here) ↦ elim (Bool-cases (r.frame == target)) [
          | inl hit ↦
              let (a, run, f) =
                fulfil_from-Fulfilled w target d rounds (i + 1) (swap_remove requests i) e
                  (omega (arith, length-swap_remove requests i r here)) in
              (
                (a.0, respond r.response d.game target ∷ a.1),
                rw (here, fulfil_from, hit, e, run),
                hit_Fulfilled d target i requests r a here (==→eq r.frame target hit) f,
              )
          | inr miss ↦
              let (a, run, f) =
                fulfil_from-Fulfilled w target d rounds (i + 1) requests e (omega arith) in
              (a, rw (here, fulfil_from, miss, run), f)
        ]
      ]

  -- A fulfilment returns, whatever is pending: it answers only requests for its frame, with the
  -- game of that frame, and each request is answered or still pending, never both and never lost.
  pub fulfil-Fulfilled :
      (w : DataWindow (FrameData G E)) (target : ℕ) (d : FrameData G E)
      (requests : List StateRequest)
      → get w target ≡ ok d
      → (a : Answers G E) × (fulfil w target requests ≡ ok a) × Fulfilled d.game target requests a
  unfolding fulfil
  fulfil-Fulfilled w target d requests e =
      fulfil_from-Fulfilled w target d (length requests) 0 requests e (omega arith)

  -- Of two pending requests, the first for this frame, the second is not looked at: it is moved to
  -- the place that the loop has just left, and stays pending even if it is for this frame too.
  pub fulfil_pair :
      (w : DataWindow (FrameData G E)) (target : ℕ) (d : FrameData G E) (r s : StateRequest)
      → get w target ≡ ok d
      → r.frame ≡ target
      → fulfil w target (r ∷ s ∷ []) ≡ ok (s ∷ [], respond r.response d.game target ∷ [])
  unfolding fulfil fulfil_from swap_remove
  fulfil_pair w target d r s e hit =
      let answers : (r.frame == target) ≡ true = ap (λ k. k == target) hit ∙ ==_refl target in
      rw (fulfil_from, answers, e)
