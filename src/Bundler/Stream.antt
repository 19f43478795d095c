-- ===== src/Bundler/Stream.antt =====
-- What the bundler received and what it has sent.
use pnf.Base.{
  ◌≡◌, refl, sym, ◌∙◌, ap, subst, ℕ, suc, ◌+◌, ◌-◌, ◌^◌, ◌/◌, ◌<◌, List, [], ◌∷◌, ◌++◌, arith,
  ==_refl, ne→==, le→ltb, lt→ltb, ltb, if◌then◌else◌,
}
use mathlib.Core.List.{append-nil}
use native.Mathlib.Decide.{dec_lt}
use pnf.Base.Words.{add32, add32_lem, add64, add64_lem, div64_lem, truncate_lem, lt32, lt32_lem}
use pnf.Base.Outcome.{ok, ◌>>=◌}
use pnf.Base.Loop.{for_frames, for_frames_stop, for_lt, repeat-total}
use pnf.Base.GoMap.{find}
use pnf.Engine.{EngineParams}
use pnf.Event.{FrameBundle, no_events}
use pnf.Bundler.{
  Bundler, BundlerInput, local_event, local_engine_event, tick, time_delta, frame_at, local_bundle,
  send_frame, receive, receive_all,
}
use pnf.Bundler.Ledger.{join, join-no_events, sent_events, received, held, Carried, Carried-trans}

-- the frame in which the clock stands
abbrev pub clock_frame : EngineParams → ℕ → ℕ
clock_frame params ms = ms / params.frame_ms

pub frame_at_lem :
    (params : EngineParams) (ms : ℕ)
    → 0 < params.frame_ms
    → params.frame_ms < 2 ^ 63
    → ms < 2 ^ 63
    → clock_frame params ms < 2 ^ 31
    → frame_at params ms ≡ ok (clock_frame params ms)
unfolding frame_at
frame_at_lem params ms a b c d = rw (
  ne→== params.frame_ms 0 (λ e. absurd (omega arith)),
  div64_lem ms params.frame_ms c b,
  truncate_lem (ms / params.frame_ms) (omega arith),
)

module _ {E : Type 0} where
  sent_events_one :
      (b : Bundler E) (j : ℕ) → sent_events b.params.id (local_bundle b j ∷ []) ≡ held b
  unfolding sent_events find
  sent_events_one b j = rw (==_refl b.params.id) (join-no_events (held b))

  -- one frame
  send_frame-Carried :
      (j : ℕ) (b c : Bundler E) (sent : List (FrameBundle E))
      → j + 1 < 2 ^ 32
      → Carried b c no_events sent
      → c.current_frame ≡ j
      → (r : Bundler E × List (FrameBundle E)) × (send_frame j (c, sent) ≡ ok r)
        × Carried b r.0 no_events r.1
        × (r.0.current_frame ≡ suc j)
        × (r.0.current_ms ≡ c.current_ms)
  unfolding send_frame
  send_frame-Carried j b c sent h p e =
      let next : add32 j 1 ≡ suc j = add32_lem j 1 (omega arith) ∙ omega arith in
      let d : Bundler E = record c {
        current_frame = add32 j 1;
        current_events = [];
        current_engine_events = [];
      } in
      let one : Carried c d no_events (local_bundle c j ∷ []) = record {
        same_params = refl;
        conserved = ap (λ x. join x no_events) (sent_events_one c j);
        consecutive = (sym e, ap suc e ∙ sym next);
      } in
      (
        (d, sent ++ (local_bundle c j ∷ [])),
        refl,
        Carried-trans b c d no_events no_events sent (local_bundle c j ∷ []) p one,
        next,
        refl,
      )

  -- the clock stays in range: no number of milliseconds or frame wraps
  abbrev pub InRange : EngineParams → ℕ → List (BundlerInput E) → Type 0
  InRange params ms [] = Unit
  InRange params ms (local_event e ∷ is) = InRange params ms is
  InRange params ms (local_engine_event e ∷ is) = InRange params ms is
  InRange params ms (tick ∷ is) =
      (ms + 1 < 2 ^ 63) × (clock_frame params (ms + 1) < 2 ^ 31) × InRange params (ms + 1) is
  InRange params ms (time_delta d ∷ is) = InRange params (add64 ms d) is

  -- The frame up to which bundles are due, of a bundler at frame `f`: the clock is looked at when it
  -- ticks, and a frame that it has passed once stays passed.
  abbrev pub frame_after : EngineParams → ℕ → ℕ → List (BundlerInput E) → ℕ
  frame_after params f ms [] = f
  frame_after params f ms (local_event e ∷ is) = frame_after params f ms is
  frame_after params f ms (local_engine_event e ∷ is) = frame_after params f ms is
  frame_after params f ms (tick ∷ is) =
      let next = clock_frame params (ms + 1) in
      frame_after params (if ltb f next then next else f) (ms + 1) is
  frame_after params f ms (time_delta d ∷ is) = frame_after params f (add64 ms d) is

  nothing_sent : (b : Bundler E) (ms : ℕ) → Carried b (record b { current_ms = ms }) no_events []
  unfolding sent_events
  nothing_sent b ms = record {
    same_params = refl;
    conserved = sym (join-no_events (held b));
    consecutive = refl;
  }

  -- the loop of the ticker's case
  pub tick_loop :
      (b : Bundler E) (ms next : ℕ)
      → b.current_frame < 2 ^ 31
      → next < 2 ^ 31
      → (r : Bundler E × List (FrameBundle E)) × (for_frames
            (λ frame. lt32 frame next)
            send_frame
            b.current_frame
            (record b { current_ms = ms }, [])
          ≡ ok r)
        × Carried b r.0 no_events r.1
        × (r.0.current_ms ≡ ms)
        × (r.0.current_frame < 2 ^ 31)
        × (r.0.current_frame ≡ (if ltb b.current_frame next then next else b.current_frame))
  tick_loop b ms next h k =
      let b' : Bundler E = record b { current_ms = ms } in
      elim (dec_lt b.current_frame next) [
        | yes p ↦
            let (r, e, (c, f, m)) =
              repeat-total
                (λ j s.
                  Carried b s.0 no_events s.1 × (s.0.current_frame ≡ j) × (s.0.current_ms ≡ ms))
                send_frame (next - b.current_frame) b.current_frame (b', [])
                (λ j s x y q.
                  let (t, e, c, f, m) = send_frame-Carried j b s.0 s.1 (omega arith) q.0 q.1 in
                  (t, e, (c, f, m ∙ q.2)))
                (nothing_sent b ms, refl, refl) in
            (
              r,
              for_lt send_frame b.current_frame next (b', []) (omega arith) k ∙ e,
              c,
              m,
              omega (arith, f),
              rw (lt→ltb b.current_frame next p) (omega (arith, f)),
            )
        | no p ↦ (
          (b', []),
          for_frames_stop (λ frame. lt32 frame next) send_frame b.current_frame (b', [])
              (lt32_lem b.current_frame next h k ∙ le→ltb b.current_frame next (omega arith)),
          nothing_sent b ms,
          refl,
          h,
          rw (le→ltb b.current_frame next (omega arith)) refl,
        )
      ]

  -- one case of `routine`
  receive-Carried :
      (i : BundlerInput E) (is : List (BundlerInput E)) (b : Bundler E)
      → 0 < b.params.frame_ms
      → b.params.frame_ms < 2 ^ 63
      → b.current_frame < 2 ^ 31
      → InRange b.params b.current_ms (i ∷ is)
      → (r : Bundler E × List (FrameBundle E)) × (receive i b ≡ ok r)
        × Carried b r.0 (received (i ∷ [])) r.1
        × InRange b.params r.0.current_ms is
        × (r.0.current_frame < 2 ^ 31)
        × (frame_after b.params b.current_frame b.current_ms (i ∷ is)
            ≡ frame_after b.params r.0.current_frame r.0.current_ms is)
  unfolding receive received sent_events
  receive-Carried (local_event e) is b a c d v =
      (_, refl, record { same_params = refl; conserved = one_more; consecutive = refl }, v, d, refl)
    where
      one_more :
          join no_events (held (record b { current_events = b.current_events ++ (e ∷ []) }))
          ≡ join (held b) (join (record { game = e ∷ []; engine = [] }) no_events)
      one_more =
          ap (λ es. record { game = b.current_events ++ (e ∷ []); engine = es })
            (sym (append-nil b.current_engine_events))
  receive-Carried (local_engine_event e) is b a c d v =
      (_, refl, record { same_params = refl; conserved = one_more; consecutive = refl }, v, d, refl)
    where
      one_more :
          join no_events
            (held (record b { current_engine_events = b.current_engine_events ++ (e ∷ []) }))
          ≡ join (held b) (join (record { game = []; engine = e ∷ [] }) no_events)
      one_more =
          ap (λ es. record { game = es; engine = b.current_engine_events ++ (e ∷ []) })
            (sym (append-nil b.current_events))
  receive-Carried tick is b a c d v =
      let ms = b.current_ms + 1 in
      let (r, e, k, m, h, exact) = tick_loop b ms (clock_frame b.params ms) d v.1 in
      (
        r,
        rw
            (
              add64_lem b.current_ms 1 (omega (arith, v.0)),
              frame_at_lem b.params ms a c v.0 v.1,
              ◌>>=◌,
            )
            e,
        k,
        rw m v.2,
        h,
        rw (exact, m) refl,
      )
  receive-Carried (time_delta delta) is b a c d v =
      (_, refl, nothing_sent b (add64 b.current_ms delta), v, d, refl)

  received_cons :
      (i : BundlerInput E) (is : List (BundlerInput E))
      → received (i ∷ is) ≡ join (received (i ∷ [])) (received is)
  unfolding received
  received_cons (local_event e) is = refl
  received_cons (local_engine_event e) is = refl
  received_cons tick is = refl
  received_cons (time_delta d) is = refl

  -- While no number wraps, the bundler handles any sequence of inputs. It sends one bundle for each
  -- frame from its own up to the latest at which a tick has found the clock, in order, and every local
  -- event is in exactly one bundle or still held, in the order in which the events came.
  pub receive_all-Carried :
      (is : List (BundlerInput E)) (b : Bundler E)
      → 0 < b.params.frame_ms
      → b.params.frame_ms < 2 ^ 63
      → b.current_frame < 2 ^ 31
      → InRange b.params b.current_ms is
      → (r : Bundler E × List (FrameBundle E)) × (receive_all is b ≡ ok r)
        × Carried b r.0 (received is) r.1
        × (r.0.current_frame ≡ frame_after b.params b.current_frame b.current_ms is)
  unfolding receive_all received
  receive_all-Carried [] b a c d v = ((b, []), refl, nothing_sent b b.current_ms, refl)
  receive_all-Carried (i ∷ is) b a c d v =
      let (r, e, k, v', d', due) = receive-Carried i is b a c d v in
      let same : r.0.params ≡ b.params = k.same_params in
      let (s, e', k', reached) =
        receive_all-Carried is r.0 (rw same a) (rw same c) d' (rw same v') in
      (
        (s.0, r.1 ++ s.1),
        rw (e, ◌>>=◌, e'),
        subst (λ x. Carried b s.0 x (r.1 ++ s.1)) (sym (received_cons i is))
            (Carried-trans b r.0 s.0 (received (i ∷ [])) (received is) r.1 s.1 k k'),
        subst
              (λ (q : EngineParams).
                s.0.current_frame ≡ frame_after q r.0.current_frame r.0.current_ms is)
              same reached
            ∙ sym due,
      )
