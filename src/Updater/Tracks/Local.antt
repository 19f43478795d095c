-- ===== src/Updater/Tracks/Local.antt =====
-- The case of `routine` for a local bundle, on a consistent updater that is not starting up.
use pnf.Base.{
  ◌≡◌, refl, sym, ◌∙◌, ap, ℕ, zero, suc, ◌+◌, ◌^◌, ◌<◌, Bool, true, false, some, List, [], ◌++◌,
  length, arith, le→ltb, if◌then◌else◌, ◌==◌, ◌||◌,
}
use pnf.Base.Words.{add32, add32_lem, sub32, le32, lt32, lt32_lem, minus_one32}
use pnf.Base.Outcome.{Outcome, ok, ◌>>=◌, >>=-eq-ok, ok-injective}
use pnf.Base.GoMap.{entries}
use pnf.Base.Loop.{for_frames}
use pnf.DataWindow.{get, start}
use pnf.DataWindow
use pnf.Event.{EventBundle, AllEvents}
use pnf.Event.Keys.{IsKeyed}
use pnf.Event.Absorb.{AreDisjoint}
use pnf.Game.{GameOps, FrameData}
use pnf.Updater.{Updater}
use pnf.Updater.Requests.{fulfil, fulfil_final_requests}
use pnf.Updater.Handle.{catch_up, store_local, min32, max32, Sent}
use pnf.Updater.Advance.{
  complete_frame, complete_frames, rethink_step, all_present, bootstrap_message, rethink,
  all_frames,
}
use pnf.Updater.Advance
use pnf.Updater.Replay.{World}
use pnf.Updater.Tracks.{IsConsistent}
use pnf.Updater.Tracks.Remote.{Stored, absorb-Stored}

pub not_negative : (f : ℕ) → f < 2 ^ 31 → lt32 f 0 ≡ false
not_negative f h = lt32_lem f 0 h (omega arith) ∙ le→ltb f 0 (omega arith)

module _ {G E : Type 0} where
  complete_frame-fast_requests :
      (u : Updater G E) (d : FrameData G E) (r : Sent G E)
      → complete_frame u d ≡ ok r
      → r.0.fast_requests ≡ u.fast_requests
  unfolding complete_frame fulfil_final_requests
  complete_frame-fast_requests u d r h =
      let (w, h1, k1) = >>=-eq-ok (DataWindow.advance u.data_window) _ r h in
      let (x, h2, k2) = >>=-eq-ok (fulfil_final_requests (record u { data_window = w })) _ r k1 in
      let (a, h3, k3) = >>=-eq-ok (fulfil w (start w) u.final_requests) _ x h2 in
      let e2 = ok-injective (x.0, bootstrap_message u.bootstrap_frames (start w) d ++ x.1) r k2 in
      let e3 =
        ok-injective (record (record u { data_window = w }) { final_requests = a.0 }, a.1) x k3 in
      sym (ap (λ (s : Sent G E). s.0.fast_requests) e2)
      ∙ sym (ap (λ (s : Sent G E). s.0.fast_requests) e3)

  -- what an outcome says of the pending requests, if it is this result
  abbrev Keeps : Updater G E → Sent G E → Outcome (Sent G E) → Type 0
  Keeps u r o = o ≡ ok r → r.0.fast_requests ≡ u.fast_requests

  module _ (rounds : ℕ) (u : Updater G E) (r : Sent G E)
      (later : (x : Updater G E) (y : Sent G E)
        → complete_frames rounds x ≡ ok y
        → y.0.fast_requests ≡ x.fast_requests) where
    stops : Keeps u r (ok (u, []))
    stops e = sym (ap (λ (s : Sent G E). s.0.fast_requests) (ok-injective (u, []) r e))

    passes :
        (d : FrameData G E) (b : Bool)
        → Keeps u r (elim b [
          | false ↦ ok (u, [])
          | true ↦ do
            done ← complete_frame u d
            rest ← complete_frames rounds done.0
            ok (rest.0, done.1 ++ rest.1)
        ])
    passes d false e = stops e
    passes d true e =
        let (x, h1, k1) = >>=-eq-ok (complete_frame u d) _ r e in
        let (y, h2, k2) = >>=-eq-ok (complete_frames rounds x.0) _ r k1 in
        sym (ap (λ (s : Sent G E). s.0.fast_requests) (ok-injective (y.0, x.1 ++ y.1) r k2))
        ∙ later x.0 y h2
        ∙ complete_frame-fast_requests u d x h1

    by_round :
        (b : Bool)
        → Keeps u r (elim b [
          | false ↦ ok (u, [])
          | true ↦ do
            d ← get u.data_window (add32 (start u.data_window) 1)
            elim (all_present (entries d.info.engines) d.bundle) [
              | false ↦ ok (u, [])
              | true ↦ do
                done ← complete_frame u d
                rest ← complete_frames rounds done.0
                ok (rest.0, done.1 ++ rest.1)
            ]
        ])
    by_round false e = stops e
    by_round true e =
        let (d, h1, k1) = >>=-eq-ok (get u.data_window (add32 (start u.data_window) 1)) _ r e in
        passes d (all_present (entries d.info.engines) d.bundle) k1

  complete_frames-fast_requests :
      (rounds : ℕ) (u : Updater G E) (r : Sent G E)
      → complete_frames rounds u ≡ ok r
      → r.0.fast_requests ≡ u.fast_requests
  unfolding complete_frames
  complete_frames-fast_requests zero u r h = cc
  complete_frames-fast_requests (suc rounds) u r h =
      by_round rounds u r (complete_frames-fast_requests rounds)
        (lt32 (start u.data_window) u.global_frame) h

module _ {G E : Type 0} (ops : GameOps G E) where
  pub advance-fast_requests :
      (u : Updater G E) (r : Sent G E)
      → Advance.advance ops u ≡ ok r
      → r.0.fast_requests ≡ u.fast_requests
  unfolding Advance.advance rethink
  advance-fast_requests u r h =
      let (v, h1, k1) = >>=-eq-ok (rethink ops u) _ r h in
      let (prev, h2, k2) = >>=-eq-ok (get u.data_window (sub32 u.oldest_dirty_frame 1)) _ v h1 in
      let (w, h3, k3) =
        >>=-eq-ok
          (for_frames (λ frame. le32 frame u.global_frame) (rethink_step ops) u.oldest_dirty_frame
            (prev, u.data_window))
          _ v k2 in
      complete_frames-fast_requests all_frames v r k1
      ∙ sym (
          ap (λ (x : Updater G E). x.fast_requests)
            (ok-injective
              (record u { data_window = w.1; oldest_dirty_frame = add32 u.global_frame 1 }) v k3))

module _ {G E : Type 0} where
  pub not_starting :
      (u : Updater G E) (f : ℕ)
      → u.skip_to_frame ≡ 0
      → f < 2 ^ 31
      → (u.skip_to_frame == minus_one32 || lt32 f u.skip_to_frame) ≡ false
  not_starting u f h k = ap (λ s. s == minus_one32 || lt32 f s) h ∙ not_negative f k

  pub no_catch_up : (f : ℕ) (u : Updater G E) → u.skip_to_frame ≡ 0 → catch_up f u ≡ ok (u, [])
  unfolding catch_up
  no_catch_up f u h =
      let none_skipped : lt32 0 u.skip_to_frame ≡ false =
        ap (lt32 0) h ∙ not_negative 0 (omega arith) in
      rw (catch_up, none_skipped) refl

module _ {G E : Type 0} (ops : GameOps G E) (world : ℕ → World G) (events : ℕ → EventBundle E) where
  pub store_local-Stored :
      (u : Updater G E) (c : IsConsistent ops world events u) (f : ℕ) (bundle : EventBundle E)
      (es : List (ℕ × AllEvents E))
      → u.skip_to_frame ≡ 0
      → u.data_window.first < f
      → f < u.data_window.first + length u.data_window.slots
      → events f ≡ some es
      → IsKeyed es
      → IsKeyed (entries bundle)
      → AreDisjoint es (entries bundle)
      → (v : Updater G E) × (merged : List (ℕ × AllEvents E)) × (store_local
            (record { frame = f; bundle = bundle })
            u
          ≡ ok v)
        × (v.fast_requests ≡ u.fast_requests)
        × (v.local_frame ≡ f)
        × (v.params ≡ u.params)
        × (v.skip_to_frame ≡ u.skip_to_frame)
        × Stored ops world events u c f bundle es merged v
  unfolding store_local
  store_local-Stored u c f bundle es none_skipped a b made keyed keyed' apart =
      let t = c.tracks in
      let (w, w', merged, r, r', stored) =
        absorb-Stored ops world events u c f bundle es a b made keyed keyed' apart in
      let next : add32 u.global_frame 1 ≡ u.global_frame + 1 =
        add32_lem u.global_frame 1 (omega (arith, t.last_in, t.valid.no_wrap)) in
      let first : max32 (add32 u.global_frame 1) u.skip_to_frame ≡ add32 u.global_frame 1 =
        ap (max32 (add32 u.global_frame 1)) none_skipped
        ∙ ap (λ k. if k then 0 else add32 u.global_frame 1)
            (not_negative (add32 u.global_frame 1)
              (omega (arith, next, t.last_in, t.valid.no_wrap))) in
      let v : Updater G E = record u {
        data_window = w';
        local_frame = f;
        global_frame = max32 u.global_frame f;
        oldest_dirty_frame = min32 f u.oldest_dirty_frame;
      } in
      (
        v,
        merged,
        rw (first, r, ◌>>=◌, r', ◌>>=◌) refl,
        refl,
        refl,
        refl,
        refl,
        stored v refl refl refl,
      )
