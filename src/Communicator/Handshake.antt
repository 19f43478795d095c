-- ===== src/Communicator/Handshake.antt =====
-- What a new connection is sent.
use mathlib.Core.List.{Memᴰ}
use mathlib.Core.List.Memᴰ
use pnf.Base.{inl, inr, ◌≡◌, refl, ℕ, ◌+◌, ◌≤◌, ◌<◌, some, List, [], ◌∷◌, ◌++◌, arith}
use pnf.Base.Words.{add32, add32_lem}
use pnf.Base.Outcome.{ok, ◌>>=◌}
use pnf.Event.{FrameBundle}
use pnf.Communicator.{
  Codec, Communicator, CommunicatorInput, new_conn, Effect, send_data, send_frame_bundle,
  go_bootstrap, receive, receive_all,
}
use pnf.Communicator.Loops.{Encodes, max_frame, OffersIn, AllInBounds}
use pnf.Communicator.Serve.{receive-Served, receive_all-Served}

module _ {G E D : Type 0} (codec : Codec G D) (enc : Encodes codec) (conn id : ℕ) where
  -- What the connection is sent in a run from `c` that adds it: its first frame, which is above
  -- the horizon, and every bundle from that frame on.
  pub record Welcomed (is : List (CommunicatorInput G E)) (c : Communicator)
      (sent : List (Effect E D)) : Type 0 where
    pub start : ℕ
    pub data' : D
    pub encoded : codec.encode_initial (record { horizon = start; id = id }) ≡ some data'
    pub told : Memᴰ (send_data conn data') sent
    pub above : c.horizon < start
    pub complete :
        (b : FrameBundle E)
        → OffersIn {G = G} conn b is
        → start ≤ b.frame
        → Memᴰ (send_frame_bundle conn b) sent

  receive-new_conn :
      (c : Communicator)
      → c.horizon < max_frame
      → (r : Communicator × List (Effect E D)) × (d : D) × (receive codec (new_conn conn id) c
          ≡ ok r)
        × (codec.encode_initial (record { horizon = add32 c.horizon 1; id = id }) ≡ some d)
        × Memᴰ (send_data conn d) r.1
        × Memᴰ conn r.0.conns
        × (r.0.horizon ≡ c.horizon)
  unfolding receive
  receive-new_conn c h =
      let (d, e) = enc.initial (record { horizon = add32 c.horizon 1; id = id }) in
      (
        (
          record c {
            conns = c.conns ++ (conn ∷ []);
            bootstraps = c.bootstraps ++ (record { conn = conn; start = add32 c.horizon 1 } ∷ []);
            active_conns = c.active_conns + 1;
          },
          send_data conn d ∷ go_bootstrap conn id ∷ [],
        ),
        d,
        rw (receive, e),
        e,
        Memᴰ.head refl,
        Memᴰ.append_right c.conns (Memᴰ.head refl),
        refl,
      )

  -- A connection is added between two runs of `routine`. If every value can be encoded and no frame
  -- number wraps, all inputs are handled without a panic, the connection is sent a first frame that
  -- is above the horizon, and it is sent every bundle from that frame on, but for its own, that the
  -- host handles at any time.
  pub new_conn-Welcomed :
      (before after : List (CommunicatorInput G E)) (c : Communicator)
      → c.horizon < max_frame
      → AllInBounds before
      → AllInBounds after
      → (r : Communicator × List (Effect E D)) × (receive_all codec
            (before ++ (new_conn conn id ∷ after))
            c
          ≡ ok r)
        × Welcomed (before ++ (new_conn conn id ∷ after)) c r.1
  unfolding receive_all
  new_conn-Welcomed [] after c h v w =
      let (r, d, e, encoded, told, there, same) = receive-new_conn c h in
      let (s, g, k) = receive_all-Served codec enc after r.0 (omega (arith, same)) w in
      (
        (s.0, r.1 ++ s.1),
        rw (e, ◌>>=◌, g),
        record {
          start = add32 c.horizon 1;
          data' = d;
          encoded = encoded;
          told = Memᴰ.append_left s.1 told;
          above = omega (arith, add32_lem c.horizon 1 (omega arith));
          complete = λ b o x. elim o [
            | inl z ↦ absurd z
            | inr z ↦ Memᴰ.append_right r.1 (k.delivers conn b there z)
          ];
        },
      )
  new_conn-Welcomed (i ∷ before) after c h v w =
      let (r, e, f) = receive-Served codec enc i c h v.0 in
      let (s, g, k) = new_conn-Welcomed before after r.0 f.bounded v.1 w in
      (
        (s.0, r.1 ++ s.1),
        rw (e, ◌>>=◌, g),
        record {
          start = k.start;
          data' = k.data';
          encoded = k.encoded;
          told = Memᴰ.append_right r.1 k.told;
          above = omega (arith, f.rises, k.above);
          complete = λ b o x. elim o [
            | inl z ↦ absurd (omega (arith, f.covers conn b (inl z), k.above))
            | inr z ↦ Memᴰ.append_right r.1 (k.complete b z x)
          ];
        },
      )
