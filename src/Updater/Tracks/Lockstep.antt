-- ===== src/Updater/Tracks/Lockstep.antt =====
-- The whole of `routine`, on what the other goroutines may send it.
use pnf.Base.{
  inl, inr, ◌≡◌, refl, sym, ◌∙◌, ap, subst, ℕ, ◌+◌, ◌^◌, ◌<◌, List, [], ◌∷◌, ◌++◌, length, arith,
}
use pnf.Base.Outcome.{ok, ok-injective, ◌>>=◌}
use pnf.Base.GoMap.{entries, find}
use pnf.Event.{FrameBundle}
use pnf.Game.{GameOps, IsLawful}
use pnf.Updater.{Updater, broadcast}
use pnf.Updater.Handle.{Sent, store_local, handle_local}
use pnf.Updater.Routine.{
  Input, local_bundle, remote_bundles, state_request, info_request, handle, routine,
}
use pnf.Updater.Replay.{World}
use pnf.Updater.Tracks.Local.{store_local-Stored, not_starting, no_catch_up}
use pnf.Updater.Tracks.Ledger.{
  Ledger, enter, enter_all, enter_all-append, IsFresh, AllFresh, AllFresh-append, InWindow, AllIn,
}
use pnf.Updater.Tracks.Plays.{Plays, IsSettled, Continues, advance-Plays}
use pnf.Updater.Tracks.Reply.{
  handle_request-Plays, handle_info_request-first, fulfil_fast_requests-Plays,
}
use pnf.Updater.Tracks.Cases.{HasRoom, AllForeign, handle_remote-Plays, Stored-Plays}

-- the bundles that `routine` takes in, in order
unfoldable pub taken_in : {E : Type 0} → List (Input E) → List (FrameBundle E)
taken_in [] = []
taken_in (local_bundle b ∷ is) = b ∷ taken_in is
taken_in (remote_bundles bs ∷ is) = bs ++ taken_in is
taken_in (state_request r ∷ is) = taken_in is
taken_in (info_request ∷ is) = taken_in is

module _ {G E : Type 0} where
  -- What the other goroutines send to an updater that has got so far: its own bundles are new, all
  -- bundles are for frames of the window, and a frame is 32 bits wide.
  abbrev pub Fits : Input E → Updater G E → Type 0
  Fits (local_bundle b) u =
      (u.local_frame < b.frame)
      × InWindow u.data_window.first (length u.data_window.slots) b
      × HasRoom u
  Fits (remote_bundles bs) u =
      AllForeign u.params.id bs
      × AllIn u.data_window.first (length u.data_window.slots) bs
      × HasRoom u
  Fits (state_request r) u = r.frame < 2 ^ 32
  Fits info_request u = Unit

  -- Each input fits the updater that the inputs before it leave.
  abbrev pub AllFit : GameOps G E → List (Input E) → Updater G E → Type 0
  AllFit ops [] u = Unit
  AllFit ops (i ∷ is) u = Fits i u × ((r : Sent G E) → handle ops i u ≡ ok r → AllFit ops is r.0)

  pub AllFit-cons :
      (ops : GameOps G E) (i : Input E) (is : List (Input E)) (u : Updater G E) (r : Sent G E)
      → Fits i u
      → handle ops i u ≡ ok r
      → AllFit ops is r.0
      → AllFit ops (i ∷ is) u
  AllFit-cons ops i is u r fit run rest = (
    fit,
    λ s e. subst (λ (x : Sent G E). AllFit ops is x.0) (ok-injective r s (sym run ∙ e)) rest,
  )

module _ {G E : Type 0} (ops : GameOps G E) (law : IsLawful ops) (base : ℕ) (start' : World G) where
  -- the case for a local bundle, from the point where it is stored
  stored_Continues :
      (l : Ledger E) (u : Updater G E) (b : FrameBundle E) (v : Updater G E)
      → u.skip_to_frame ≡ 0
      → b.frame < 2 ^ 31
      → store_local b u ≡ ok v
      → v.params ≡ u.params
      → Plays ops base start' l v
      → v.global_frame + length v.data_window.slots + 1 < 2 ^ 31
      → Continues ops base start' l u (handle_local ops b u)
  unfolding handle_local
  stored_Continues l u b v joined small run same p room =
      let (x, run', q, settled, same') = advance-Plays ops base start' l v p law room in
      let (r, run'', q', settled', same'') =
        fulfil_fast_requests-Plays ops base start' l x.0 q settled in
      (
        (r.0, broadcast b ∷ x.1 ++ r.1),
        rw
            (
              handle_local,
              not_starting u b.frame joined small,
              no_catch_up b.frame u joined,
              run,
              run',
              run'',
              ◌>>=◌,
            )
            refl,
        q',
        settled',
        same'' ∙ same' ∙ same,
      )

  -- A bundle of the engine itself, after those that it has made, for a frame of the window.
  handle_local-Plays :
      (l : Ledger E) (u : Updater G E)
      → Plays ops base start' l u
      → (b : FrameBundle E) → IsFresh u.params.id l b
      → InWindow u.data_window.first (length u.data_window.slots) b
      → u.local_frame < b.frame
      → HasRoom u
      → Continues ops base start' (enter b l) u (handle_local ops b u)
  handle_local-Plays l u p b fresh inside after room =
      let (es, made, keyed) = p.consistent.made b.frame inside.0 in
      let (v, merged, run, same_fast, at_local, same_params, same_skip, st) =
        store_local-Stored ops p.world p.events u p.consistent b.frame b.bundle es p.joined inside.0
          inside.1 made keyed fresh.keyed
          (λ k. elim (fresh.apart k) [
            | inl e ↦ inr e
            | inr e ↦ inl (
                ap (λ x. find k (entries x)) (sym made)
                ∙ p.holds b.frame k (omega (arith, inside, p.base_in))
                ∙ e)
          ]) in
      stored_Continues (enter b l) u b v p.joined (omega arith) run same_params
        (Stored-Plays ops law base start' l u p b fresh inside es merged made v st after at_local
          same_params same_skip)
        (omega (arith, st.consistent.tracks.last_in, st.same_first, st.same_length))

  -- the bundles of one input
  abbrev bundles_of : Input E → List (FrameBundle E)
  bundles_of (local_bundle b) = b ∷ []
  bundles_of (remote_bundles bs) = bs
  bundles_of (state_request r) = []
  bundles_of info_request = []

  taken_in_cons :
      (i : Input E) (is : List (Input E)) → taken_in (i ∷ is) ≡ bundles_of i ++ taken_in is
  unfolding taken_in
  taken_in_cons (local_bundle b) is = refl
  taken_in_cons (remote_bundles bs) is = refl
  taken_in_cons (state_request r) is = refl
  taken_in_cons info_request is = refl

  handle-Plays :
      (i : Input E) (l : Ledger E) (u : Updater G E) (p : Plays ops base start' l u)
      → IsSettled ops p
      → AllFresh u.params.id l (bundles_of i)
      → Fits i u
      → Continues ops base start' (enter_all (bundles_of i) l) u (handle ops i u)
  unfolding handle enter_all
  handle-Plays (local_bundle b) l u p c fresh fit =
      handle_local-Plays l u p b fresh.0 fit.1 fit.0 fit.2
  handle-Plays (remote_bundles bs) l u p c fresh fit =
      handle_remote-Plays ops law base start' l u p bs fresh fit.0 fit.1 fit.2
  handle-Plays (state_request r) l u p c fresh fit =
      handle_request-Plays ops base start' l u p c r fit
  handle-Plays info_request l u p c fresh fit =
      (_, handle_info_request-first ops base start' l u p c, p, c, refl)

  -- Whatever comes, in whatever order, `routine` handles it, and the updater shows at every frame what
  -- the ledger calls for.
  pub routine-Plays :
      (is : List (Input E)) (l : Ledger E) (u : Updater G E) (p : Plays ops base start' l u)
      → IsSettled ops p
      → AllFresh u.params.id l (taken_in is)
      → AllFit ops is u
      → Continues ops base start' (enter_all (taken_in is) l) u (routine ops is u)
  unfolding routine
  routine-Plays [] l u p c fresh fit = unfold taken_in enter_all in ((u, []), refl, p, c, refl)
  routine-Plays (i ∷ is) l u p c fresh fit =
      let (now, later) =
        AllFresh-append u.params.id (bundles_of i) (taken_in is) l
          (subst (AllFresh u.params.id l) (taken_in_cons i is) fresh) in
      let (r, run, q, c', same) = handle-Plays i l u p c now fit.0 in
      let (s, run', q', c'', same') =
        routine-Plays is (enter_all (bundles_of i) l) r.0 q c'
          (subst (λ ps. AllFresh ps.id (enter_all (bundles_of i) l) (taken_in is)) (sym same) later)
          (fit.1 r run) in
      subst (λ m. Continues ops base start' m u (routine ops (i ∷ is) u))
        (sym (
          ap (λ bs. enter_all bs l) (taken_in_cons i is)
          ∙ enter_all-append (bundles_of i) (taken_in is) l))
        ((s.0, r.1 ++ s.1), rw (run, ◌>>=◌, run', ◌>>=◌) refl, q', c'', same' ∙ same)
