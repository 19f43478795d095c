-- ===== src/Updater/Tracks/Kept.antt =====
-- What the cases of `routine` leave alone: the fields that say how far the engine itself has got.
use pnf.Base.{
  ◌≡◌, refl, sym, ◌∙◌, ap, subst, ℕ, Bool, true, false, List, [], ◌∷◌, if◌then◌else◌, ◌==◌,
}
use pnf.Base.Words.{le32, add32, minus_one32}
use pnf.Base.Outcome.{Outcome, ok, ◌>>=◌, >>=-eq-ok, ok-injective}
use pnf.DataWindow.{start}
use pnf.Event.{FrameBundle}
use pnf.Updater.{Updater}
use pnf.Updater.Handle.{
  Window, init_frames, absorb_at, next_skip, max32, min32, store_remote, store_group,
}

module _ {G E : Type 0} where
  pub record Kept (u v : Updater G E) : Type 0 where
    pub same_local : v.local_frame ≡ u.local_frame
    pub same_params : v.params ≡ u.params
    pub same_fast : v.fast_requests ≡ u.fast_requests
    pub settled : u.skip_to_frame ≡ 0 → v.skip_to_frame ≡ 0

  pub Kept-refl : (u : Updater G E) → Kept u u
  Kept-refl u = record { same_local = refl; same_params = refl; same_fast = refl; settled = λ e. e }

  pub Kept-trans : (u v w : Updater G E) → Kept u v → Kept v w → Kept u w
  Kept-trans u v w k l = record {
    same_local = l.same_local ∙ k.same_local;
    same_params = l.same_params ∙ k.same_params;
    same_fast = l.same_fast ∙ k.same_fast;
    settled = λ e. l.settled (k.settled e);
  }

  next_skip_lem :
      (u : Updater G E) (b : FrameBundle E)
      → u.skip_to_frame ≡ 0
      → next_skip u b ≡ ok u.skip_to_frame
  unfolding next_skip
  next_skip_lem u b e =
      let still : (u.skip_to_frame == minus_one32) ≡ false = ap (λ s. s == minus_one32) e in
      rw still refl

  -- what an outcome says of the fields, if it is this result
  abbrev Keeps : Updater G E → Updater G E → Outcome (Updater G E) → Type 0
  Keeps u v o = o ≡ ok v → Kept u v

  stored_Kept :
      (b : FrameBundle E) (u v : Updater G E) (skip : ℕ) (w : Window G E)
      → next_skip u b ≡ ok skip
      → record u {
        data_window = w;
        global_frame = max32 u.global_frame b.frame;
        oldest_dirty_frame = min32 b.frame u.oldest_dirty_frame;
        skip_to_frame = skip;
      }
        ≡ v
      → Kept u v
  stored_Kept b u v skip w h e = record {
    same_local = sym (ap (λ (x : Updater G E). x.local_frame) e);
    same_params = sym (ap (λ (x : Updater G E). x.params) e);
    same_fast = sym (ap (λ (x : Updater G E). x.fast_requests) e);
    settled = λ z.
        sym (ap (λ (x : Updater G E). x.skip_to_frame) e)
        ∙ ok-injective skip u.skip_to_frame (sym h ∙ next_skip_lem u b z)
        ∙ z;
  }

  store_new :
      (b : FrameBundle E) (u v : Updater G E) (old : Bool)
      → Keeps u v (
          if old then ok u else (do
            w ← init_frames (add32 u.global_frame 1) b.frame u.data_window
            skip ← next_skip u b
            w' ← absorb_at b.frame b.bundle w
            ok (record u {
              data_window = w';
              global_frame = max32 u.global_frame b.frame;
              oldest_dirty_frame = min32 b.frame u.oldest_dirty_frame;
              skip_to_frame = skip;
            })))
  store_new b u v true h = subst (Kept u) (ok-injective u v h) (Kept-refl u)
  store_new b u v false h =
      let (w, h1, k1) =
        >>=-eq-ok (init_frames (add32 u.global_frame 1) b.frame u.data_window) _ v h in
      let (skip, h2, k2) = >>=-eq-ok (next_skip u b) _ v k1 in
      let (w', h3, k3) = >>=-eq-ok (absorb_at b.frame b.bundle w) _ v k2 in
      stored_Kept b u v skip w' h2 (ok-injective _ v k3)

  pub store_remote-Kept :
      (b : FrameBundle E) (u v : Updater G E) → store_remote b u ≡ ok v → Kept u v
  unfolding store_remote
  store_remote-Kept b u v h = store_new b u v (le32 b.frame (start u.data_window)) h

  pub store_group-Kept :
      (bs : List (FrameBundle E)) (u v : Updater G E) → store_group bs u ≡ ok v → Kept u v
  unfolding store_group
  store_group-Kept [] u v h = subst (Kept u) (ok-injective u v h) (Kept-refl u)
  store_group-Kept (b ∷ bs) u v h =
      let (x, h1, k1) = >>=-eq-ok (store_remote b u) _ v h in
      Kept-trans u x v (store_remote-Kept b u x h1) (store_group-Kept bs x v k1)
