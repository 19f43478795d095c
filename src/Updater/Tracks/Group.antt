-- ===== src/Updater/Tracks/Group.antt =====
-- A group of bundles, as `nagle` makes it, and `advance` after it.
use pnf.Base.{
  ◌⊎◌, inl, inr, ◌≡◌, refl, sym, ◌∙◌, ap, subst, ℕ, ◌+◌, ◌^◌, ◌≤◌, ◌<◌, true, ◌==◌, Option, none,
  some, List, [], ◌∷◌, length, arith, le→ltb, if◌then◌else◌, ==_refl, ne→==,
}
use native.Mathlib.Decide.{ℕ_discrete}
use pnf.Base.Words.{lt32_lem}
use pnf.Base.Outcome.{ok, ◌>>=◌}
use pnf.Base.GoMap.{entries, find}
use pnf.DataWindow.{start}
use pnf.Event.{EventBundle, AllEvents, FrameBundle}
use pnf.Event.Keys.{IsKeyed}
use pnf.Event.Absorb.{AreDisjoint, Merged, either, either-none}
use pnf.Game.{GameOps, IsLawful}
use pnf.Updater.{Updater}
use pnf.Updater.Handle.{store_remote, store_group, handle_remote, Sent, min32}
use pnf.Updater.Replay.{World}
use pnf.Updater.Tracks.{IsConsistent}
use pnf.Updater.Tracks.Rewrite.{with_events, rewritten_before}
use pnf.Updater.Tracks.Remote.{new_world, le-max32}
use pnf.Updater.Tracks.Past.{Past, Stored-Past}
use pnf.Updater.Tracks.Receive.{store_remote-Stored, Current, advance-Current}

pub either_assoc : {A : Type 0} (x y z : Option A) → either (either x y) z ≡ either x (either y z)
either_assoc none y z = refl
either_assoc (some a) y z = refl

module _ {E : Type 0} where
  -- what a bundle has for an engine at a frame
  abbrev pub bundle_at : FrameBundle E → ℕ → ℕ → Option (AllEvents E)
  bundle_at b q k = if b.frame == q then find k (entries b.bundle) else none

  -- what a group has for an engine at a frame
  unfoldable pub arrived : List (FrameBundle E) → ℕ → ℕ → Option (AllEvents E)
  arrived [] q k = none
  arrived (b ∷ bs) q k = either (bundle_at b q k) (arrived bs q k)

  -- A bundle that can be stored, before the others of its group: it is for a frame of the window,
  -- and neither the frame nor the rest of the group has events of its engines for the frame.
  pub record IsNew (events : ℕ → EventBundle E) (first size : ℕ) (b : FrameBundle E)
      (bs : List (FrameBundle E)) : Type 0 where
    pub after : first < b.frame
    pub before : b.frame < first + size
    pub keyed : IsKeyed (entries b.bundle)
    pub apart : AreDisjoint (entries (events b.frame)) (entries b.bundle)
    pub alone : (k : ℕ) → (find k (entries b.bundle) ≡ none) ⊎ (arrived bs b.frame k ≡ none)

  -- Each bundle is too old, or new.
  abbrev pub AllNew : (ℕ → EventBundle E) → ℕ → ℕ → List (FrameBundle E) → Type 0
  AllNew events first size [] = Unit
  AllNew events first size (b ∷ bs) =
      ((b.frame ≤ first) ⊎ IsNew events first size b bs) × AllNew events first size bs

  rest_apart :
      (fs gs merged hs : List (ℕ × AllEvents E)) (o : Option (AllEvents E)) (k : ℕ)
      → Merged fs gs merged
      → (find k fs ≡ none) ⊎ (find k hs ≡ none)
      → (find k gs ≡ none) ⊎ (either (find k hs) o ≡ none)
      → (find k merged ≡ none) ⊎ (find k hs ≡ none)
  rest_apart fs gs merged hs o k m d e = ground (arith, m.at k)

  -- Storing the first bundle leaves the others new.
  AllNew-with_events :
      (events : ℕ → EventBundle E) (first size f : ℕ) (gs merged : List (ℕ × AllEvents E))
      (bs : List (FrameBundle E))
      → Merged (entries (events f)) gs merged
      → ((k : ℕ) → (find k gs ≡ none) ⊎ (arrived bs f k ≡ none))
      → AllNew events first size bs
      → AllNew (with_events events f (some merged)) first size bs
  unfolding arrived
  AllNew-with_events events first size f gs merged [] m d v = tt
  AllNew-with_events events first size f gs merged (b ∷ bs) m d v = (
    elim v.0 [
      | inl old ↦ inl old
      | inr n ↦ inr (record {
        after = n.after;
        before = n.before;
        keyed = n.keyed;
        apart = elim (ℕ_discrete f b.frame) [
          | yes p ↦
              let here : (f == b.frame) ≡ true = subst (λ q. (f == q) ≡ true) p (==_refl f) in
              let hit : (b.frame == f) ≡ true = subst (λ q. (q == f) ≡ true) p (==_refl f) in
              rw here (λ k.
                rest_apart (entries (events f)) gs merged (entries b.bundle) (arrived bs f k) k m
                  (subst
                    (λ q. (find k (entries (events q)) ≡ none) ⊎ (find k (entries b.bundle) ≡ none))
                    (sym p) (n.apart k))
                  (subst
                    (λ t.
                      (find k gs ≡ none)
                      ⊎ (either (if t then find k (entries b.bundle) else none) (arrived bs f k)
                          ≡ none))
                    hit (d k)))
          | no ne ↦ rw (ne→== f b.frame ne) n.apart
        ];
        alone = n.alone;
      })
    ],
    AllNew-with_events events first size f gs merged bs m (λ k. ground (arith, d k)) v.1,
  )

  -- what a frame has once a bundle is stored
  pub find-with_events :
      (events : ℕ → EventBundle E) (b : FrameBundle E) (merged : List (ℕ × AllEvents E)) (q k : ℕ)
      → Merged (entries (events b.frame)) (entries b.bundle) merged
      → find k (entries (with_events events b.frame (some merged) q))
        ≡ either (find k (entries (events q))) (bundle_at b q k)
  find-with_events events b merged q k m = elim (ℕ_discrete b.frame q) [
    | yes p ↦
        let here : (b.frame == q) ≡ true = subst (λ j. (b.frame == j) ≡ true) p (==_refl b.frame) in
        rw here
          (m.at k ∙ ap (λ j. either (find k (entries (events j))) (find k (entries b.bundle))) p)
    | no ne ↦ rw (ne→== b.frame q ne) (either-none (find k (entries (events q))))
  ]

  store_remote_old :
      {G : Type 0} (b : FrameBundle E) (u : Updater G E)
      → b.frame ≤ u.data_window.first
      → u.data_window.first < 2 ^ 31
      → store_remote b u ≡ ok u
  unfolding store_remote start
  store_remote_old b u h k =
      rw
        (lt32_lem u.data_window.first b.frame k (omega arith), le→ltb u.data_window.first b.frame h)

module _ {G E : Type 0} (ops : GameOps G E) where
  -- What a group leaves behind: an updater that is consistent with a history that has the same
  -- first world and, for each later frame and engine, what it had before or what the group has.
  pub record Gathered (world : ℕ → World G) (events : ℕ → EventBundle E) (u : Updater G E)
      (bs : List (FrameBundle E)) (v : Updater G E) : Type 0 where
    pub new_world : ℕ → World G
    pub new_events : ℕ → EventBundle E
    pub consistent : IsConsistent ops new_world new_events v
    pub past :
        (base : ℕ)
        → base ≤ u.data_window.first
        → Past ops world events base u.global_frame
        → Past ops new_world new_events base v.global_frame
    pub same_worlds : (q : ℕ) → q ≤ u.data_window.first → new_world q ≡ world q
    pub same_events : (q : ℕ) → q ≤ u.data_window.first → new_events q ≡ events q
    pub at :
        (q k : ℕ)
        → u.data_window.first < q
        → find k (entries (new_events q)) ≡ either (find k (entries (events q))) (arrived bs q k)
    pub same_first : v.data_window.first ≡ u.data_window.first
    pub same_length : length v.data_window.slots ≡ length u.data_window.slots
    pub grows : u.global_frame ≤ v.global_frame

  -- A group of bundles, each too old or new, is stored: every one of its events that is not too
  -- old is in its frame, nothing else changes, and the updater stays consistent.
  pub store_group-Gathered :
      (world : ℕ → World G) (events : ℕ → EventBundle E) (bs : List (FrameBundle E))
      (u : Updater G E)
      → IsConsistent ops world events u
      → AllNew events u.data_window.first (length u.data_window.slots) bs
      → (v : Updater G E) × (store_group bs u ≡ ok v) × Gathered world events u bs v
  unfolding store_group arrived
  store_group-Gathered world events [] u c v = (
    u,
    refl,
    record {
      new_world = world;
      new_events = events;
      consistent = c;
      past = λ base h p. p;
      same_worlds = λ q h. refl;
      same_events = λ q h. refl;
      at = λ q k h. either-none (find k (entries (events q)));
      same_first = refl;
      same_length = refl;
      grows = omega arith;
    },
  )
  store_group-Gathered world events (b ∷ bs) u c v = elim v.0 [
    | inl old ↦
        let (w, e, g) = store_group-Gathered world events bs u c v.1 in
        (
          w,
          rw (store_remote_old b u old (omega (arith, c.tracks.valid.no_wrap)), ◌>>=◌, e),
          record {
            new_world = g.new_world;
            new_events = g.new_events;
            consistent = g.consistent;
            past = g.past;
            same_worlds = g.same_worlds;
            same_events = g.same_events;
            at = λ q k h. rw (ne→== b.frame q (λ p. absurd (omega arith))) (g.at q k h);
            same_first = g.same_first;
            same_length = g.same_length;
            grows = g.grows;
          },
        )
    | inr n ↦
        let (es, made, keyed) = c.made b.frame n.after in
        let same : entries (events b.frame) ≡ es = ap entries made in
        let (u', merged, e, st) =
          store_remote-Stored ops world events u c b.frame b.bundle es n.after n.before made keyed
            n.keyed (subst (λ x. AreDisjoint x (entries b.bundle)) same n.apart) in
        let m : Merged (entries (events b.frame)) (entries b.bundle) merged =
          subst (λ x. Merged x (entries b.bundle) merged) (sym same) st.at_frame in
        let (w, e', g) =
          store_group-Gathered (new_world ops world events u c b.frame b.bundle es merged)
            (with_events events b.frame (some merged)) bs u' st.consistent
            (rw (st.same_first, st.same_length)
              (AllNew-with_events events u.data_window.first (length u.data_window.slots) b.frame
                (entries b.bundle) merged bs m n.alone v.1)) in
        (
          w,
          rw (e, ◌>>=◌, e'),
          record {
            new_world = g.new_world;
            new_events = g.new_events;
            consistent = g.consistent;
            past = λ base h p. g.past base (omega (arith, st.same_first)) (
                Stored-Past ops world events u c b.frame b.bundle es merged u' st base h n.after
                  n.before p);
            same_worlds = λ q h.
                g.same_worlds q (omega (arith, st.same_first))
                ∙ rewritten_before ops world (with_events events b.frame (some merged))
                    (min32 b.frame u.oldest_dirty_frame) q
                    (omega (arith, st.consistent.dirty_after, st.first_dirty, st.same_first));
            same_events = λ q h.
                g.same_events q (omega (arith, st.same_first))
                ∙ rw (ne→== b.frame q (λ p. absurd (omega (arith, n.after)))) refl;
            at = λ q k h.
                g.at q k (omega (arith, st.same_first))
                ∙ ap (λ o. either o (arrived bs q k)) (find-with_events events b merged q k m)
                ∙ either_assoc (find k (entries (events q))) (bundle_at b q k) (arrived bs q k);
            same_first = g.same_first ∙ st.same_first;
            same_length = g.same_length ∙ st.same_length;
            grows = omega (
              arith,
              g.grows,
              st.new_last,
              le-max32 u.global_frame b.frame
                  (omega (arith, c.tracks.last_in, c.tracks.valid.no_wrap))
                  (omega (arith, n.before, c.tracks.valid.no_wrap)),
            );
          },
        )
  ]

  -- The case of `routine` for a group of remote bundles of which each is too old, or is for a frame of
  -- the window and brings events of engines that neither the frame nor another bundle of the group has
  -- for it, on a consistent updater: it returns, whatever the order of the group. Every event that is not too old is in its frame, every frame shows the world
  -- that the events now call for, and the window has moved over complete frames only, as far as it
  -- can.
  pub handle_remote-Current :
      IsLawful ops
      → (world : ℕ → World G) (events : ℕ → EventBundle E) (bs : List (FrameBundle E))
        (u : Updater G E)
      → IsConsistent ops world events u
      → AllNew events u.data_window.first (length u.data_window.slots) bs
      → u.data_window.first + length u.data_window.slots + length u.data_window.slots < 2 ^ 31
      → (v : Updater G E) × (r : Sent G E) × (g : Gathered world events u bs v) × (handle_remote ops
            bs u
          ≡ ok r)
        × Current ops g.new_world g.new_events v r.0
  unfolding handle_remote
  handle_remote-Current law world events bs u c new b =
      let (v, e, g) = store_group-Gathered world events bs u c new in
      let (r, e', h) =
        advance-Current ops g.new_world g.new_events law v g.consistent
          (omega (arith, g.consistent.tracks.last_in, g.same_first, g.same_length)) in
      (v, r, g, rw (e, ◌>>=◌, e'), h)
