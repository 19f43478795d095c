-- ===== src/Communicator/Join.antt =====
-- What a host tells a client and what the client makes of it, through encoding/gob.
use pnf.Base.{
  ◌≡◌, refl, sym, ◌∙◌, ap, ℕ, Bool, true, some, List, [], ◌∷◌, ◌++◌, map, inl, inr, if◌then◌else◌,
  Bool-cases,
}
use mathlib.Core.List.{append_assoc, append-nil}
use pnf.Base.Words.{lt32}
use pnf.Event.{FrameBundle}
use pnf.Updater.{BootstrapFrame}
use pnf.Communicator.{Codec, InitialData, send_data, raw_remote_bundle, join_engine, go_conn}
use pnf.Communicator.Client.{
  Delivery, data_arrives, bundle_arrives, joined, end_join, join_loop, join, bootstrap_routine,
}

-- What the code relies on of encoding/gob: what is encoded is decoded as it was, and a bool can be
-- encoded.
pub record RoundTrips {G D : Type 0} (codec : Codec G D) : Type 0 where
  pub initial_back :
      (x : InitialData) (d : D) → codec.encode_initial x ≡ some d → codec.decode_initial d ≡ some x
  pub boot_back :
      (x : BootstrapFrame G) (d : D) → codec.encode_boot x ≡ some d → codec.decode_boot d ≡ some x
  pub bool_back :
      (x : Bool) → (d : D) × (codec.encode_bool x ≡ some d) × (codec.decode_bool d ≡ some x)

-- the bundles of frames after this one, in order
abbrev pub later_than : {E : Type 0} → ℕ → List (FrameBundle E) → List (FrameBundle E)
later_than start [] = []
later_than start (b ∷ bs) =
    if lt32 start b.frame then b ∷ later_than start bs else later_than start bs

module _ {G E D : Type 0} (codec : Codec G D) (law : RoundTrips codec) (conn : ℕ) where
  keeps_later :
      (initial : InitialData) (kept bs : List (FrameBundle E)) (ds : List (Delivery E D))
      → join_loop {G = G} codec conn initial kept (map (λ b. bundle_arrives b) bs ++ ds)
        ≡ join_loop {G = G} codec conn initial (kept ++ later_than initial.horizon bs) ds
  unfolding join_loop
  keeps_later initial kept [] ds =
      ap (λ k. join_loop {G = G} codec conn initial k ds) (sym (append-nil kept))
  keeps_later initial kept (b ∷ bs) ds = elim (Bool-cases (lt32 initial.horizon b.frame)) [
    | inl new ↦
        rw (join_loop, new)
          (keeps_later initial (kept ++ (b ∷ [])) bs ds
            ∙ ap (λ k. join_loop {G = G} codec conn initial k ds)
                (append_assoc kept (b ∷ []) (later_than initial.horizon bs)))
    | inr old ↦ rw (join_loop, old) (keeps_later initial kept bs ds)
  ]

  -- A client joins a host over a connection that delivers the host's two data, the bundles that come
  -- between them, and anything after. Then `Join` returns the boot frame and the id that the host
  -- sent, hands on exactly the bundles after the announced first frame, in order, and says that it is
  -- ready; and on this answer the host joins the engine with the same id to the game.
  pub join_completes :
      (host_conn start id : ℕ) (boot : BootstrapFrame G) (first second : D)
      (before : List (FrameBundle E)) (after : List (Delivery E D))
      → codec.encode_initial (record { horizon = start; id = id }) ≡ some first
      → codec.encode_boot boot ≡ some second
      → (ready : D) × (join codec conn first
            (map (λ b. bundle_arrives b) before ++ (data_arrives second ∷ after))
          ≡ (
            joined boot id (later_than start before),
            send_data conn ready ∷ map (λ b. raw_remote_bundle b) (later_than start before),
          ))
        × (bootstrap_routine {E = E} codec host_conn id (some ready)
            ≡ join_engine id ∷ go_conn host_conn ∷ [])
  unfolding join join_loop bootstrap_routine end_join
  join_completes host_conn start id boot first second before after e g =
      let (ready, made, back) = law.bool_back true in
      (
        ready,
        rw (join, law.initial_back (record { horizon = start; id = id }) first e)
            (keeps_later (record { horizon = start; id = id }) [] before
                (data_arrives second ∷ after)
              ∙ rw (join_loop, end_join, law.boot_back boot second g, made) refl),
        rw (bootstrap_routine, back) refl,
      )
