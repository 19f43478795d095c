-- ===== src/Updater/Tracks/Complete.antt =====
-- The second loop of `advance` moves the window over the frames that are complete.
use pnf.Base.{
  ◌⊎◌, inl, inr, ◌≡◌, refl, sym, ◌∙◌, ap, subst, ℕ, zero, suc, ◌+◌, ◌^◌, ◌≤◌, ◌<◌, ◌≢◌, Bool, true,
  false, List, [], ◌++◌, length, arith, Bool-cases, lt→ltb, le→ltb,
}
use mathlib.Core.Path.{ap₂}
use mathlib.Core.Option.{some-injective}
use native.Mathlib.Decide.{ℕ_discrete, dec_lt}
use pnf.Base.Words.{add32, add32_lem, lt32, lt32_lem}
use pnf.Base.Outcome.{ok, ◌>>=◌}
use pnf.Base.GoMap.{entries}
use pnf.DataWindow.{get, start}
use pnf.DataWindow.Slots.{peek, Advanced, advance-Advanced}
use pnf.Event.{EventBundle}
use pnf.Game.{FrameData}
use pnf.Updater.{Updater, Message, StateRequest}
use pnf.Updater.Handle.{Window, Sent}
use pnf.Updater.Requests.{fulfil_final_requests}
use pnf.Updater.Requests.Fulfil.{fulfil-Fulfilled}
use pnf.Updater.Advance.{complete_frame, complete_frames, all_present, bootstrap_message}
use pnf.Updater.Replay.{World, Shows}
use pnf.Updater.Tracks.{HasGame, Tracks}
use pnf.Updater.Tracks.Rethink.{get-some}

module _ {G E : Type 0} (world : ℕ → World G) (events : ℕ → EventBundle E) where
  -- every engine that takes part in the frame has sent its events
  abbrev pub is_complete : ℕ → Bool
  is_complete f = all_present (world f).engines (events f)

  Advanced-Tracks :
      (w v : Window G E) (last : ℕ)
      → Tracks world events w last (last + 1)
      → w.first < last
      → Advanced w v
      → Tracks world events v last (last + 1)
  Advanced-Tracks w v last t h a = record {
    valid = a.valid;
    last_in = omega (arith, a.next_first, a.same_length, t.last_in);
    games = λ q k. elim (ℕ_discrete (w.first + length w.slots) q) [
      | yes e ↦
          let (d, p, g) = t.games w.first (omega (arith, t.valid.some_slot)) in
          subst (HasGame v) e (d, a.reused ∙ p, g)
      | no ne ↦
          let (d, p, g) = t.games q (omega (arith, a.next_first, a.same_length, k)) in
          (d, kept q (omega (arith, a.next_first, a.same_length, k)) ne ∙ p, g)
    ];
    bundles = λ q k l.
        let (d, p, g) = t.bundles q (omega (arith, a.next_first)) l in
        (d, kept q (omega (arith, a.next_first, t.last_in)) (omega (arith, t.last_in)) ∙ p, g);
    worlds = λ q k l.
        let (d, p, g) = t.worlds q (omega (arith, a.next_first)) l in
        (d, kept q (omega (arith, a.next_first, t.last_in)) (omega (arith, t.last_in)) ∙ p, g);
  }
    where
      kept :
          (q : ℕ)
          → (w.first < q) × (q ≤ w.first + length w.slots)
          → w.first + length w.slots ≢ q
          → peek v q ≡ peek w q
      kept q k ne = a.kept q (omega arith) (omega arith)

  -- What the loop leaves behind: it has passed complete frames only, and it has stopped at the last
  -- frame or at one that is not complete.
  pub record Completed (u v : Updater G E) : Type 0 where
    pub tracks : Tracks world events v.data_window v.global_frame (v.global_frame + 1)
    pub same_last : v.global_frame ≡ u.global_frame
    pub same_dirty : v.oldest_dirty_frame ≡ u.oldest_dirty_frame
    pub same_local : v.local_frame ≡ u.local_frame
    pub same_skip : v.skip_to_frame ≡ u.skip_to_frame
    pub same_params : v.params ≡ u.params
    pub same_length : length v.data_window.slots ≡ length u.data_window.slots
    pub passed : u.data_window.first ≤ v.data_window.first
    pub complete :
        (f : ℕ) → u.data_window.first < f → f ≤ v.data_window.first → is_complete f ≡ true
    pub stopped :
        (v.data_window.first ≡ v.global_frame) ⊎ (is_complete (suc v.data_window.first) ≡ false)

  -- one round, at a frame that is complete
  complete_frame_lem :
      (u : Updater G E) (d : FrameData G E)
      → Tracks world events u.data_window u.global_frame (u.global_frame + 1)
      → u.data_window.first < u.global_frame
      → u.global_frame + length u.data_window.slots + 1 < 2 ^ 31
      → (w : Window G E) × (requests : List StateRequest) × (sent : List (Message G E))
        × (complete_frame u d ≡ ok (record u { data_window = w; final_requests = requests }, sent))
        × Advanced u.data_window w
  unfolding complete_frame fulfil_final_requests start
  complete_frame_lem u d t h b =
      let (w, e, a) = advance-Advanced u.data_window t.valid (omega (arith, t.last_in)) in
      let moved = Advanced-Tracks u.data_window w u.global_frame t h a in
      let (first, p, shows) = moved.worlds w.first (omega arith) (omega (arith, moved.last_in)) in
      let (answers, run, f) =
        fulfil-Fulfilled w w.first first u.final_requests
          (get-some w w.first first moved.valid (omega (arith, moved.valid.some_slot)) p) in
      (w, answers.0, bootstrap_message u.bootstrap_frames w.first d ++ answers.1, rw (e, run), a)

  stays :
      (u : Updater G E)
      → Tracks world events u.data_window u.global_frame (u.global_frame + 1)
      → (u.data_window.first ≡ u.global_frame) ⊎ (is_complete (suc u.data_window.first) ≡ false)
      → Completed u u
  stays u t stop = record {
    tracks = t;
    same_last = refl;
    same_dirty = refl;
    same_local = refl;
    same_skip = refl;
    same_params = refl;
    same_length = refl;
    passed = omega arith;
    complete = λ f h k. absurd (omega arith);
    stopped = stop;
  }

  moves :
      (u : Updater G E) (w : Window G E) (requests : List StateRequest) (v : Updater G E)
      → Advanced u.data_window w
      → is_complete (suc u.data_window.first) ≡ true
      → Completed (record u { data_window = w; final_requests = requests }) v
      → Completed u v
  moves u w requests v a whole c = record {
    tracks = c.tracks;
    same_last = c.same_last;
    same_dirty = c.same_dirty;
    same_local = c.same_local;
    same_skip = c.same_skip;
    same_params = c.same_params;
    same_length = c.same_length ∙ a.same_length;
    passed = omega (arith, c.passed, a.next_first);
    complete = λ f h k. elim (ℕ_discrete (suc u.data_window.first) f) [
      | yes e ↦ subst (λ q. is_complete q ≡ true) e whole
      | no ne ↦ c.complete f (omega (arith, a.next_first)) k
    ];
    stopped = c.stopped;
  }

  next_frame :
      (u : Updater G E)
      → Tracks world events u.data_window u.global_frame (u.global_frame + 1)
      → add32 u.data_window.first 1 ≡ suc u.data_window.first
  next_frame u t = add32_lem u.data_window.first 1 (omega (arith, t.valid.no_wrap)) ∙ omega arith

  -- the slot of the second frame of the window, as the loop reads it
  second_slot :
      (u : Updater G E)
      → Tracks world events u.data_window u.global_frame (u.global_frame + 1)
      → u.data_window.first < u.global_frame
      → (d : FrameData G E) × (get u.data_window (suc u.data_window.first) ≡ ok d)
        × (d.bundle ≡ events (suc u.data_window.first))
        × Shows d (world (suc u.data_window.first))
  second_slot u t h =
      let f = suc u.data_window.first in
      let (d, e, shows) = t.worlds f (omega arith) (omega arith) in
      let (c, k, same) = t.bundles f (omega arith) (omega arith) in
      (
        d,
        get-some u.data_window f d t.valid (omega (arith, t.last_in)) e,
        subst (λ x. x.bundle ≡ events f) (some-injective c d (sym k ∙ e)) same,
        shows,
      )

  pub complete_frames-Completed :
      (rounds : ℕ) (u : Updater G E)
      → Tracks world events u.data_window u.global_frame (u.global_frame + 1)
      → u.global_frame < u.data_window.first + rounds
      → u.global_frame + length u.data_window.slots + 1 < 2 ^ 31
      → (r : Sent G E) × (complete_frames rounds u ≡ ok r) × Completed u r.0
  unfolding complete_frames start
  complete_frames-Completed zero u t h b = absurd (omega (arith, t.last_in))
  complete_frames-Completed (suc rounds) u t h b =
      let first = u.data_window.first in
      let last = u.global_frame in
      let bounds : (first < 2 ^ 31) × (last < 2 ^ 31) = omega (arith, t.last_in) in
      elim (dec_lt first last) [
        | no done ↦
            let stop : lt32 first last ≡ false =
              lt32_lem first last bounds.0 bounds.1 ∙ le→ltb first last (omega arith) in
            ((u, []), rw (complete_frames, stop), stays u t (inl (omega (arith, t.last_in))))
        | yes more ↦
            let go : lt32 first last ≡ true =
              lt32_lem first last bounds.0 bounds.1 ∙ lt→ltb first last more in
            let (d, e, same, shows) = second_slot u t more in
            let present : all_present (entries d.info.engines) d.bundle ≡ is_complete (suc first) =
              ap₂ all_present (ap entries shows.info_is) same in
            elim (Bool-cases (is_complete (suc first))) [
              | inr partial ↦ (
                (u, []),
                rw (complete_frames, go, next_frame u t, e, ◌>>=◌, present, partial),
                stays u t (inr partial),
              )
              | inl whole ↦
                  let (w, requests, sent, run, a) = complete_frame_lem u d t more b in
                  let u' : Updater G E = record u { data_window = w; final_requests = requests } in
                  let (r, rest, c) =
                    complete_frames-Completed rounds u'
                      (Advanced-Tracks u.data_window w last t more a) (omega (arith, a.next_first))
                      (omega (arith, a.same_length)) in
                  (
                    (r.0, sent ++ r.1),
                    rw (complete_frames, go, next_frame u t, e, ◌>>=◌, present, whole, run, rest),
                    moves u w requests r.0 a whole c,
                  )
            ]
      ]
