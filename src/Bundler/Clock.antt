-- ===== src/Bundler/Clock.antt =====
-- The bundler's clock while nobody adjusts it.
use pnf.Base.{
  ◌≡◌, refl, sym, ◌∙◌, ap, ℕ, suc, ◌+◌, ◌^◌, ◌/◌, ◌≤◌, ◌<◌, List, [], ◌∷◌, ◌++◌, arith, ltb, lt→ltb,
  le→ltb, if◌then◌else◌,
}
use native.Mathlib.Decide.{dec_lt}
use pnf.Base.Words.{add64_lem}
use pnf.Base.Outcome.{ok, ◌>>=◌}
use pnf.Event.{FrameBundle}
use pnf.Bundler.{
  Bundler, BundlerInput, local_event, local_engine_event, tick, time_delta, receive, receive_all,
}
use pnf.Bundler.Ledger.{IsConsecutive, IsConsecutive-append}
use pnf.Bundler.Stream.{clock_frame, frame_at_lem, tick_loop}

div_mono : (m n k : ℕ) → 0 < k → m ≤ n → m / k ≤ n / k
div_mono m n k a h = grind arith

later_or_same : (f next : ℕ) → f ≤ next → (if ltb f next then next else f) ≡ next
later_or_same f next h = elim (dec_lt f next) [
  | yes p ↦ rw (lt→ltb f next p) refl
  | no p ↦ rw (le→ltb f next (omega arith)) (omega arith)
]

module _ {E : Type 0} where
  -- how many milliseconds pass, and that the clock is not set
  abbrev pub ticks : List (BundlerInput E) → ℕ
  ticks [] = 0
  ticks (local_event e ∷ is) = ticks is
  ticks (local_engine_event e ∷ is) = ticks is
  ticks (tick ∷ is) = suc (ticks is)
  ticks (time_delta d ∷ is) = ticks is

  abbrev pub Undisturbed : List (BundlerInput E) → Type 0
  Undisturbed [] = Unit
  Undisturbed (local_event e ∷ is) = Undisturbed is
  Undisturbed (local_engine_event e ∷ is) = Undisturbed is
  Undisturbed (tick ∷ is) = Undisturbed is
  Undisturbed (time_delta d ∷ is) = ⊥

  -- the bundler has sent all frames that are over, and no other
  abbrev pub OnTime : Bundler E → Type 0
  OnTime b = b.current_frame ≡ clock_frame b.params b.current_ms

  -- What an input, or many, leave of a bundler that is on time.
  pub record Punctual (b : Bundler E) (passed : ℕ) (r : Bundler E × List (FrameBundle E))
      : Type 0 where
    pub on_time : OnTime r.0
    pub clock : r.0.current_ms ≡ b.current_ms + passed
    pub same_params : r.0.params ≡ b.params
    pub consecutive : IsConsecutive b.current_frame r.1 r.0.current_frame

  receive-Punctual :
      (i : BundlerInput E) (b : Bundler E)
      → 0 < b.params.frame_ms
      → b.params.frame_ms < 2 ^ 63
      → OnTime b
      → b.current_ms + ticks (i ∷ []) < 2 ^ 63
      → clock_frame b.params (b.current_ms + ticks (i ∷ [])) < 2 ^ 31
      → Undisturbed (i ∷ [])
      → (r : Bundler E × List (FrameBundle E)) × (receive i b ≡ ok r)
        × Punctual b (ticks (i ∷ [])) r
  unfolding receive
  receive-Punctual (local_event e) b a c t h k v =
      (_, refl, record { on_time = t; clock = omega arith; same_params = refl; consecutive = refl })
  receive-Punctual (local_engine_event e) b a c t h k v =
      (_, refl, record { on_time = t; clock = omega arith; same_params = refl; consecutive = refl })
  receive-Punctual tick b a c t h k v =
      let ms = b.current_ms + 1 in
      let next = clock_frame b.params ms in
      let grows : b.current_frame ≤ next =
        omega (arith, t, div_mono b.current_ms ms b.params.frame_ms a (omega arith)) in
      let (r, e, kept, m, small, exact) = tick_loop b ms next (omega (arith, k, grows)) k in
      (
        r,
        rw
            (
              add64_lem b.current_ms 1 (omega arith),
              frame_at_lem b.params ms a c (omega arith) k,
              ◌>>=◌,
            )
            e,
        record {
          on_time =
              exact
              ∙ later_or_same b.current_frame next grows
              ∙ ap (λ q. clock_frame b.params q) (sym m)
              ∙ ap (λ q. clock_frame q r.0.current_ms) (sym kept.same_params);
          clock = m;
          same_params = kept.same_params;
          consecutive = kept.consecutive;
        },
      )
  receive-Punctual (time_delta d) b a c t h k v = absurd v

  ticks_cons :
      (i : BundlerInput E) (is : List (BundlerInput E)) → ticks (i ∷ is) ≡ ticks (i ∷ []) + ticks is
  ticks_cons (local_event e) is = omega arith
  ticks_cons (local_engine_event e) is = omega arith
  ticks_cons tick is = omega arith
  ticks_cons (time_delta d) is = omega arith

  Undisturbed-cons :
      (i : BundlerInput E) (is : List (BundlerInput E))
      → Undisturbed (i ∷ is)
      → Undisturbed (i ∷ []) × Undisturbed is
  Undisturbed-cons (local_event e) is v = (tt, v)
  Undisturbed-cons (local_engine_event e) is v = (tt, v)
  Undisturbed-cons tick is v = (tt, v)
  Undisturbed-cons (time_delta d) is v = absurd v

  -- While nobody sets the clock and no number wraps, a bundler that is on time handles any sequence
  -- of inputs and stays on time: each tick is a millisecond, and the bundles that it has sent are one
  -- for each frame that is over by its clock, in order.
  pub receive_all-Punctual :
      (is : List (BundlerInput E)) (b : Bundler E)
      → 0 < b.params.frame_ms
      → b.params.frame_ms < 2 ^ 63
      → OnTime b
      → b.current_ms + ticks is < 2 ^ 63
      → clock_frame b.params (b.current_ms + ticks is) < 2 ^ 31
      → Undisturbed is
      → (r : Bundler E × List (FrameBundle E)) × (receive_all is b ≡ ok r) × Punctual b (ticks is) r
  unfolding receive_all
  receive_all-Punctual [] b a c t h k v = (
    (b, []),
    refl,
    record { on_time = t; clock = omega arith; same_params = refl; consecutive = refl },
  )
  receive_all-Punctual (i ∷ is) b a c t h k v =
      let sum = ticks_cons i is in
      let (now, later) = Undisturbed-cons i is v in
      let in_time : clock_frame b.params (b.current_ms + ticks (i ∷ [])) < 2 ^ 31 = omega (
        arith,
        div_mono (b.current_ms + ticks (i ∷ [])) (b.current_ms + ticks (i ∷ is)) b.params.frame_ms a
            (omega (arith, sum)),
      ) in
      let (r, e, p) = receive-Punctual i b a c t (omega (arith, sum)) in_time now in
      let clock : r.0.current_ms + ticks is ≡ b.current_ms + ticks (i ∷ is) =
        omega (arith, p.clock, sum) in
      let (s, e', q) =
        receive_all-Punctual is r.0 (rw p.same_params a) (rw p.same_params c) p.on_time
          (omega (arith, clock)) (rw (p.same_params, clock) k) later in
      (
        (s.0, r.1 ++ s.1),
        rw (e, ◌>>=◌, e', ◌>>=◌) refl,
        record {
          on_time = q.on_time;
          clock = q.clock ∙ clock;
          same_params = q.same_params ∙ p.same_params;
          consecutive =
              IsConsecutive-append b.current_frame r.0.current_frame s.0.current_frame r.1 s.1
                p.consecutive q.consecutive;
        },
      )
