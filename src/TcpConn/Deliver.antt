-- ===== src/TcpConn/Deliver.antt =====
-- What the program at one end receives, of what the program at the other sends.
use pnf.Base.{inl, ◌≡◌, refl, sym, ◌∙◌, ap, subst, some, List, [], ◌++◌}
use mathlib.Core.List.{append_assoc, append-nil}
use mathlib.Core.Option.{some-injective}
use pnf.Event.{FrameBundle}
use pnf.TcpConn.{Bytes, Payload, StreamCodec}
use pnf.TcpConn.Waiting.{held}
use pnf.TcpConn.Stream.{Link, Label, new_link, Run, done, then_step}
use pnf.TcpConn.Order.{IsStream, InFlight}
use pnf.TcpConn.Traffic.{
  data_of, bundles_of, sent_by, data_by, bundles_by, sent, received_data, received_bundles,
  data_of-append, bundles_of-append,
}
use pnf.TcpConn.Flow.{Flow, pending, Step-Moved}

module _ {E Encoder Decoder : Type 0} (codec : StreamCodec (Payload E) Encoder Decoder)
    (law : IsStream codec) where
  record Delivered (l : Link E Encoder Decoder) (f : Flow codec law l) (xs : List (Label E))
      (m : Link E Encoder Decoder) : Type 0 where
    flow : Flow codec law m
    taken : List (Payload E)
    payloads : pending codec law l f ++ sent xs ≡ taken ++ pending codec law m flow
    data' : held l.data_inbox ++ data_of taken ≡ received_data xs ++ held m.data_inbox
    bundles : held l.bundle_inbox ++ bundles_of taken ≡ received_bundles xs ++ held m.bundle_inbox

  -- two steps of an account
  joined :
      {A : Type 0} (a b c d e g h : List A)
      → a ++ b ≡ c ++ d
      → d ++ e ≡ g ++ h
      → a ++ (b ++ e) ≡ (c ++ g) ++ h
  joined a b c d e g h x y =
      sym (append_assoc a b e)
      ∙ ap (λ k. k ++ e) x
      ∙ append_assoc c d e
      ∙ ap (λ k. c ++ k) y
      ∙ sym (append_assoc c g h)

  Run-Delivered :
      {l m : Link E Encoder Decoder} {xs : List (Label E)} (f : Flow codec law l)
      → Run codec l xs m
      → Delivered l f xs m
  unfolding sent received_data received_bundles data_of bundles_of
  Run-Delivered {l} f done = record {
    flow = f;
    taken = [];
    payloads = append-nil (pending codec law l f);
    data' = append-nil (held l.data_inbox);
    bundles = append-nil (held l.bundle_inbox);
  }
  Run-Delivered {l} f (then_step {m = k} {n = m} {x = x} {xs = xs} s r) =
      let a = Step-Moved codec law f s in
      let b = Run-Delivered a.flow r in
      record {
        flow = b.flow;
        taken = a.taken ++ b.taken;
        payloads =
            joined (pending codec law l f) (sent_by x) a.taken (pending codec law k a.flow)
              (sent xs) b.taken (pending codec law m b.flow) a.payloads b.payloads;
        data' =
            ap (λ k. held l.data_inbox ++ k) (data_of-append a.taken b.taken)
            ∙ joined (held l.data_inbox) (data_of a.taken) (data_by x) (held k.data_inbox)
                (data_of b.taken) (received_data xs) (held m.data_inbox) a.data' b.data';
        bundles =
            ap (λ k. held l.bundle_inbox ++ k) (bundles_of-append a.taken b.taken)
            ∙ joined (held l.bundle_inbox) (bundles_of a.taken) (bundles_by x) (held k.bundle_inbox)
                (bundles_of b.taken) (received_bundles xs) (held m.bundle_inbox) a.bundles
                b.bundles;
      }

  -- In every run of a new connection, however its goroutines take turns, however reads split the bytes,
  -- and if a value cannot be encoded or decoded, or the socket takes only a part of one and gives an
  -- error: the data that are received are the first of those that were sent, in
  -- order and complete, and so are the bundles.
  pub received_in_order :
      (xs : List (Label E)) (m : Link E Encoder Decoder)
      → Run codec (new_link codec) xs m
      → ((later : List Bytes) × (data_of (sent xs) ≡ received_data xs ++ later))
        × ((later : List (FrameBundle E)) × (bundles_of (sent xs) ≡ received_bundles xs ++ later))
  received_in_order xs m run =
      let fresh : Flow codec law (new_link codec) = record {
        good = [];
        stuck = [];
        chain = λ r q.
            subst (λ k. InFlight codec law (some codec.new_encoder) k.decoder (k.unread ++ []) [])
              (some-injective (record { unread = []; decoder = codec.new_decoder }) r q)
              (inl (
                refl,
                λ e h.
                    subst (λ k. law.Matches k codec.new_decoder)
                      (some-injective codec.new_encoder e h) law.new-Matches,
              ));
        flows = λ e q. refl;
      } in
      let d = Run-Delivered fresh run in
      (
        (
          held m.data_inbox ++ data_of (pending codec law m d.flow),
          ap data_of d.payloads
              ∙ data_of-append d.taken (pending codec law m d.flow)
              ∙ ap (λ k. k ++ data_of (pending codec law m d.flow)) d.data'
              ∙ append_assoc (received_data xs) (held m.data_inbox)
                  (data_of (pending codec law m d.flow)),
        ),
        (
          held m.bundle_inbox ++ bundles_of (pending codec law m d.flow),
          ap bundles_of d.payloads
              ∙ bundles_of-append d.taken (pending codec law m d.flow)
              ∙ ap (λ k. k ++ bundles_of (pending codec law m d.flow)) d.bundles
              ∙ append_assoc (received_bundles xs) (held m.bundle_inbox)
                  (bundles_of (pending codec law m d.flow)),
        ),
      )
