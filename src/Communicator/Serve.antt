-- ===== src/Communicator/Serve.antt =====
-- What a run of `Communicator.routine` does: the connections that it has are sent every bundle.
use mathlib.Core.List.{Memᴰ}
use mathlib.Core.List.Memᴰ
use pnf.Base.{inl, inr, ◌≡◌, refl, subst, ℕ, ◌+◌, ◌≤◌, ◌<◌, List, [], ◌∷◌, ◌++◌, length, map, arith}
use pnf.Base.Words.{add32}
use pnf.Base.Outcome.{ok, ◌>>=◌}
use pnf.Event.{FrameBundle}
use pnf.Communicator.{
  Codec, InitialData, Communicator, CommunicatorInput, new_conn, broadcast_bundle, remote_bundle,
  bootstrap_frame, Effect, send_data, send_frame_bundle, go_bootstrap, raw_remote_bundle,
  raise_horizon, forward_to, remove_bootstraps, receive, receive_all,
}
use pnf.Communicator.Loops.{
  Encodes, max_frame, OffersIn, InBounds, AllInBounds, raise_horizon_lem, remove_from_returns,
  send_boot_returns, sends_to_all, sends_to_others,
}

module _ {G E D : Type 0} (codec : Codec G D) (enc : Encodes codec) where
  -- What a run of `routine` does, from `c`.
  pub record Served (is : List (CommunicatorInput G E)) (c : Communicator)
      (r : Communicator × List (Effect E D)) : Type 0 where
    pub keeps : (conn : ℕ) → Memᴰ conn c.conns → Memᴰ conn r.0.conns
    pub delivers :
        (conn : ℕ) (b : FrameBundle E)
        → Memᴰ conn c.conns
        → OffersIn conn b is
        → Memᴰ (send_frame_bundle conn b) r.1
    pub rises : c.horizon ≤ r.0.horizon
    pub covers : (conn : ℕ) (b : FrameBundle E) → OffersIn conn b is → b.frame ≤ r.0.horizon
    pub bounded : r.0.horizon < max_frame

  pub receive-Served :
      (i : CommunicatorInput G E) (c : Communicator)
      → c.horizon < max_frame
      → InBounds i
      → (r : Communicator × List (Effect E D)) × (receive codec i c ≡ ok r) × Served (i ∷ []) c r
  unfolding receive remove_bootstraps
  receive-Served (new_conn conn id) c h v =
      let initial : InitialData = record { horizon = add32 c.horizon 1; id = id } in
      let (d, e) = enc.initial initial in
      let r : Communicator × List (Effect E D) = (
        record c {
          conns = c.conns ++ (conn ∷ []);
          bootstraps = c.bootstraps ++ (record { conn = conn; start = add32 c.horizon 1 } ∷ []);
          active_conns = c.active_conns + 1;
        },
        send_data conn d ∷ go_bootstrap conn id ∷ [],
      ) in
      (
        r,
        rw (receive, e),
        record {
          keeps = λ k m. Memᴰ.append_left (conn ∷ []) m;
          delivers = λ k b m o. elim o [ inl z ↦ absurd z | inr z ↦ absurd z ];
          rises = omega arith;
          covers = λ k b o. elim o [ inl z ↦ absurd z | inr z ↦ absurd z ];
          bounded = h;
        },
      )
  receive-Served (broadcast_bundle x) c h v =
      let up = raise_horizon_lem x.frame c.horizon v h in
      (
        _,
        refl,
        record {
          keeps = λ k m. m;
          delivers = λ k b m o. elim o [
            | inl e ↦
                subst
                  (λ y.
                    Memᴰ {A = Effect E D} (send_frame_bundle k y)
                      (map (λ conn. send_frame_bundle conn x) c.conns))
                  e (sends_to_all x k c.conns m)
            | inr z ↦ absurd z
          ];
          rises = up.1;
          covers = λ k b o. elim o [
            | inl e ↦ subst (λ y. y.frame ≤ raise_horizon x.frame c.horizon) e up.0
            | inr z ↦ absurd z
          ];
          bounded = up.2;
        },
      )
  receive-Served (remote_bundle x from) c h v =
      let up = raise_horizon_lem x.frame c.horizon v h in
      (
        _,
        refl,
        record {
          keeps = λ k m. m;
          delivers = λ k b m o. elim o [
            | inl (e, ne) ↦
                subst
                  (λ y.
                    Memᴰ {A = Effect E D} (send_frame_bundle k y)
                      (raw_remote_bundle x ∷ forward_to x from c.conns))
                  e (Memᴰ.tail (sends_to_others x from k c.conns ne m))
            | inr z ↦ absurd z
          ];
          rises = up.1;
          covers = λ k b o. elim o [
            | inl (e, ne) ↦ subst (λ y. y.frame ≤ raise_horizon x.frame c.horizon) e up.0
            | inr z ↦ absurd z
          ];
          bounded = up.2;
        },
      )
  receive-Served (bootstrap_frame boot) c h v =
      let (sent, e) = send_boot_returns {E = E} codec enc boot c.bootstraps in
      let (left, g) =
        remove_from_returns boot.frame (length c.bootstraps) 0 c.bootstraps (omega arith) in
      (
        (record c { bootstraps = left }, sent),
        rw (e, ◌>>=◌, g),
        record {
          keeps = λ k m. m;
          delivers = λ k b m o. elim o [ inl z ↦ absurd z | inr z ↦ absurd z ];
          rises = omega arith;
          covers = λ k b o. elim o [ inl z ↦ absurd z | inr z ↦ absurd z ];
          bounded = h;
        },
      )

  pub receive_all-Served :
      (is : List (CommunicatorInput G E)) (c : Communicator)
      → c.horizon < max_frame
      → AllInBounds is
      → (r : Communicator × List (Effect E D)) × (receive_all codec is c ≡ ok r) × Served is c r
  unfolding receive_all
  receive_all-Served [] c h v = (
    (c, []),
    refl,
    record {
      keeps = λ k m. m;
      delivers = λ k b m o. absurd o;
      rises = omega arith;
      covers = λ k b o. absurd o;
      bounded = h;
    },
  )
  receive_all-Served (i ∷ is) c h v =
      let (r, e, f) = receive-Served i c h v.0 in
      let (s, g, k) = receive_all-Served is r.0 f.bounded v.1 in
      (
        (s.0, r.1 ++ s.1),
        rw (e, ◌>>=◌, g),
        record {
          keeps = λ conn m. k.keeps conn (f.keeps conn m);
          delivers = λ conn b m o. elim o [
            | inl z ↦ Memᴰ.append_left s.1 (f.delivers conn b m (inl z))
            | inr z ↦ Memᴰ.append_right r.1 (k.delivers conn b (f.keeps conn m) z)
          ];
          rises = omega (arith, f.rises, k.rises);
          covers = λ conn b o. elim o [
            | inl z ↦ omega (arith, f.covers conn b (inl z), k.rises)
            | inr z ↦ k.covers conn b z
          ];
          bounded = k.bounded;
        },
      )
