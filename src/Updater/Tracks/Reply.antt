-- ===== src/Updater/Tracks/Reply.antt =====
-- The requests on an updater that plays a ledger.
use pnf.Base.{
  ◌⊎◌, inl, inr, ◌≡◌, refl, ap, ℕ, ◌^◌, ◌≤◌, ◌<◌, true, false, Bool, Option, none, some, List, [],
  ◌∷◌, ◌++◌, length, arith, ◌==◌, if◌then◌else◌, ltb, ltb→lt, ==→eq, Bool-cases,
}
use pnf.Base.Words.{lt32, lt32_lem, lt32_zero, lt32_negative}
use pnf.Base.Outcome.{Outcome, ok, ◌>>=◌}
use pnf.Base.GoMap.{GoMap, entries}
use pnf.DataWindow.{get, start}
use pnf.Game.{GameOps}
use pnf.Updater.{Updater, StateRequest, respond, info_response}
use pnf.Updater.Handle.{Sent}
use pnf.Updater.Requests.{
  handle_request, final_request, fast_request, handle_info_request, fulfil_fast_requests,
}
use pnf.Updater.Requests.Fulfil.{fulfil-Fulfilled}
use pnf.Updater.Replay.{World}
use pnf.Updater.Tracks.Ledger.{Ledger}
use pnf.Updater.Tracks.Plays.{Plays, IsSettled, Continues, Plays-shown}

module _ {G E : Type 0} where
  abbrev pub with_requests : Updater G E → List StateRequest → List StateRequest → Updater G E
  with_requests u finals fasts = record u { final_requests = finals; fast_requests = fasts }

  -- the game of a frame, on the channel of the request
  abbrev pub answered : (ℕ → World G) → Updater G E → StateRequest → ℕ → Sent G E
  answered world u req f = (u, respond req.response (some (world f).game) f ∷ [])

  -- What the case for a request makes of it, with the worlds of the frames of the window. A final
  -- request is answered with the first frame of the window, if that frame or a negative one is asked
  -- for; a fast one with its own frame, or with the newest of the engine itself if a negative one is
  -- asked for. A request for a frame before the window is too old, and any other waits.
  pub data Reply (world : ℕ → World G) (u : Updater G E) (req : StateRequest)
      : Sent G E → Type 0 where
    final_first :
        req.final ≡ true
        → (req.frame ≡ u.data_window.first) ⊎ (2 ^ 31 ≤ req.frame)
        → Reply world u req (answered world u req u.data_window.first)
    fast_own :
        req.final ≡ false
        → u.data_window.first ≤ req.frame
        → req.frame ≤ u.local_frame
        → Reply world u req (answered world u req req.frame)
    fast_newest :
        req.final ≡ false
        → 2 ^ 31 ≤ req.frame
        → Reply world u req (answered world u req u.local_frame)
    too_old :
        req.frame < u.data_window.first → Reply world u req (u, respond req.response none 0 ∷ [])
    waits_final :
        req.final ≡ true
        → u.data_window.first < req.frame
        → req.frame < 2 ^ 31
        → Reply world u req (with_requests u (u.final_requests ++ (req ∷ [])) u.fast_requests, [])
    waits_fast :
        req.final ≡ false
        → u.local_frame < req.frame
        → req.frame < 2 ^ 31
        → Reply world u req (with_requests u u.final_requests (u.fast_requests ++ (req ∷ [])), [])

module _ {G E : Type 0} (ops : GameOps G E) (base : ℕ) (start' : World G) (l : Ledger E)
    (u : Updater G E) (p : Plays ops base start' l u) (settled : IsSettled ops p) where
  with_requests-Plays :
      (finals fasts : List StateRequest) → Plays ops base start' l (with_requests u finals fasts)
  with_requests-Plays finals fasts = record {
    world = p.world;
    events = p.events;
    consistent = record {
      tracks = p.consistent.tracks;
      history = p.consistent.history;
      dirty_after = p.consistent.dirty_after;
      dirty_before = p.consistent.dirty_before;
      made = p.consistent.made;
      future = p.consistent.future;
    };
    past = p.past;
    base_in = p.base_in;
    starts = p.starts;
    holds = p.holds;
    spares = p.spares;
    member = p.member;
    own = p.own;
    joined = p.joined;
    local_in = p.local_in;
    local_before = p.local_before;
  }

  small : u.global_frame < 2 ^ 31
  small = omega (arith, p.consistent.tracks.last_in, p.consistent.tracks.valid.no_wrap)

  module _ (req : StateRequest) (h : req.frame < 2 ^ 32) where
    abbrev Handled : Outcome (Sent G E) → Type 0
    Handled o = (r : Sent G E) × (o ≡ ok r) × Reply p.world u req r

    Handled-answer :
        (f : ℕ)
        → u.data_window.first ≤ f
        → f ≤ u.global_frame
        → Reply p.world u req (answered p.world u req f)
        → Handled (do data' ← get u.data_window f; ok (u, respond req.response data'.game f ∷ []))
    Handled-answer f a b c =
        let (d, e, s) = Plays-shown ops base start' l u p f a (omega (arith, settled.clean)) in
        (
          answered p.world u req f,
          rw e (ap (λ (g : Option G). ok (u, respond req.response g f ∷ [])) s.game_is),
          c,
        )

    final_Reply : req.final ≡ true → Handled (final_request u req)
    unfolding final_request start
    final_Reply kind = elim (Bool-cases (lt32 req.frame 0)) [
      | inl neg ↦ rw neg (
          Handled-answer u.data_window.first (omega arith)
            (omega (arith, p.local_in, p.local_before))
            (Reply.final_first kind (inr (lt32_negative req.frame neg h))))
      | inr nat ↦ elim (Bool-cases (req.frame == u.data_window.first)) [
        | inl same ↦
            rw (nat, same)
              (Handled-answer u.data_window.first (omega arith)
                (omega (arith, p.local_in, p.local_before))
                (Reply.final_first kind (inl (==→eq req.frame u.data_window.first same))))
        | inr other ↦ elim (Bool-cases (ltb req.frame u.data_window.first)) [
          | inl old ↦
              rw (nat, other, before nat, old)
                (_, refl, Reply.too_old (ltb→lt req.frame u.data_window.first old))
          | inr new ↦
              rw (nat, other, before nat, new)
                (_, refl, Reply.waits_final kind (ground arith) (lt32_zero req.frame h nat))
        ]
      ]
    ]
      where
        before :
            lt32 req.frame 0 ≡ false
            → lt32 req.frame u.data_window.first ≡ ltb req.frame u.data_window.first
        before nat =
            lt32_lem req.frame u.data_window.first (lt32_zero req.frame h nat)
              (omega (arith, p.local_in, p.local_before, small))

    fast_Reply : req.final ≡ false → Handled (fast_request u req)
    unfolding fast_request start
    fast_Reply kind = elim (Bool-cases (lt32 req.frame 0)) [
      | inl neg ↦ rw neg (
          Handled-answer u.local_frame p.local_in p.local_before
            (Reply.fast_newest kind (lt32_negative req.frame neg h)))
      | inr nat ↦ elim (Bool-cases (ltb req.frame u.data_window.first)) [
        | inl old ↦
            rw
              (
                nat,
                against u.data_window.first (omega (arith, p.local_in, p.local_before)) nat,
                old,
              )
              (_, refl, Reply.too_old (ltb→lt req.frame u.data_window.first old))
        | inr new ↦ elim (Bool-cases (ltb u.local_frame req.frame)) [
          | inl far ↦
              rw
                (
                  nat,
                  against u.data_window.first (omega (arith, p.local_in, p.local_before)) nat,
                  new,
                  local_against nat,
                  far,
                )
                (
                  _,
                  refl,
                  Reply.waits_fast kind (ltb→lt u.local_frame req.frame far)
                      (lt32_zero req.frame h nat),
                )
          | inr near ↦
              rw
                (
                  nat,
                  against u.data_window.first (omega (arith, p.local_in, p.local_before)) nat,
                  new,
                  local_against nat,
                  near,
                )
                (Handled-answer req.frame (ground arith) (ground (arith, p.local_before))
                  (Reply.fast_own kind (ground arith) (ground arith)))
        ]
      ]
    ]
      where
        against :
            (f : ℕ)
            → f ≤ u.global_frame
            → lt32 req.frame 0 ≡ false
            → lt32 req.frame f ≡ ltb req.frame f
        against f b nat = lt32_lem req.frame f (lt32_zero req.frame h nat) (omega (arith, b, small))

        local_against :
            lt32 req.frame 0 ≡ false → lt32 u.local_frame req.frame ≡ ltb u.local_frame req.frame
        local_against nat =
            lt32_lem u.local_frame req.frame (omega (arith, p.local_before, small))
              (lt32_zero req.frame h nat)

    by_kind :
        (final : Bool)
        → req.final ≡ final
        → Handled (if final then final_request u req else fast_request u req)
    by_kind true kind = final_Reply kind
    by_kind false kind = fast_Reply kind

    -- The case `req := <-u.request_state` of `routine`, on an updater that plays a ledger and is clean,
    -- returns, whatever frame the request names. A final request gets the game of the first frame of the
    -- window, the last that is final, if it asks for that frame or a negative one; a fast one gets the
    -- game of its own frame, if it is in the window and not after the newest frame of the engine
    -- itself, or of that newest frame if it asks for a negative one. A request for a frame before the
    -- window gets no game, and any other waits with those of its kind.
    pub handle_request-Reply :
        (r : Sent G E) × (handle_request u req ≡ ok r) × Reply p.world u req r
    unfolding handle_request
    handle_request-Reply = by_kind req.final refl

  still_settled :
      (finals fasts : List StateRequest) → IsSettled ops (with_requests-Plays finals fasts)
  unfolding with_requests-Plays
  still_settled finals fasts = record { clean = settled.clean; stopped = settled.stopped }

  Reply-Plays :
      (req : StateRequest) (r : Sent G E)
      → Reply p.world u req r
      → (q : Plays ops base start' l r.0) × IsSettled ops q × (r.0.params ≡ u.params)
  Reply-Plays req r (Reply.final_first k a) = (p, settled, refl)
  Reply-Plays req r (Reply.fast_own k a b) = (p, settled, refl)
  Reply-Plays req r (Reply.fast_newest k a) = (p, settled, refl)
  Reply-Plays req r (Reply.too_old a) = (p, settled, refl)
  Reply-Plays req r (Reply.waits_final k a b) =
      let finals = u.final_requests ++ (req ∷ []) in
      (with_requests-Plays finals u.fast_requests, still_settled finals u.fast_requests, refl)
  Reply-Plays req r (Reply.waits_fast k a b) =
      let fasts = u.fast_requests ++ (req ∷ []) in
      (with_requests-Plays u.final_requests fasts, still_settled u.final_requests fasts, refl)

  pub handle_request-Plays :
      (req : StateRequest)
      → req.frame < 2 ^ 32
      → Continues ops base start' l u (handle_request u req)
  handle_request-Plays req h =
      let (r, e, reply) = handle_request-Reply req h in
      let (q, c, same) = Reply-Plays req r reply in (r, e, q, c, same)

  -- the number of engines of the first frame of the window
  pub handle_info_request-first :
      handle_info_request u
      ≡ ok (u, info_response (length (p.world u.data_window.first).engines) ∷ [])
  unfolding handle_info_request start
  handle_info_request-first =
      let (d, e, s) =
        Plays-shown ops base start' l u p u.data_window.first (omega arith)
          (omega (arith, settled.clean, p.local_in, p.local_before)) in
      rw e (ap (λ (m : GoMap Bool). ok (u, info_response (length (entries m)) ∷ [])) s.info_is)

  pub fulfil_fast_requests-Plays : Continues ops base start' l u (fulfil_fast_requests u)
  unfolding fulfil_fast_requests
  fulfil_fast_requests-Plays =
      let (d, e, s) =
        Plays-shown ops base start' l u p u.local_frame p.local_in
          (omega (arith, settled.clean, p.local_before)) in
      let (a, run, f) = fulfil-Fulfilled u.data_window u.local_frame d u.fast_requests e in
      (
        (with_requests u u.final_requests a.0, a.1),
        rw run refl,
        with_requests-Plays u.final_requests a.0,
        still_settled u.final_requests a.0,
        refl,
      )
