-- ===== src/TcpConn/Flow.antt =====
-- What a step of a connection does to the payloads that are on their way.
use pnf.Base.{
  ◌≡◌, ◌≢◌, inl, inr, refl, sym, ◌∙◌, ap, subst, none, some, List, [], ◌∷◌, ◌++◌, Option-cases,
}
use mathlib.Core.Path.{ap₂}
use mathlib.Core.List.{append_assoc, append-nil}
use mathlib.Core.Option.{some-injective}
use pnf.Event.{FrameBundle}
use pnf.TcpConn.{
  Bytes, Payload, StreamCodec, Inbox, put_in, enqueue, dequeue, data_payload, bundle_payload,
  write_routine, Reader, decode_once,
}
use pnf.TcpConn.Waiting.{held, put_in-held, take_in-held, pass_on-held, give-held}
use pnf.TcpConn.Stream.{
  Link, Label, sends, internal, gives_data, gives_bundle, Step, send_data, send_frame_bundle, write,
  read_data, read_bundle, read_error, take_data, pass_data, recv_data, take_bundle, pass_bundle,
  recv_frame_bundle,
}
use pnf.TcpConn.Order.{IsStream, InFlight, written, ended, cut_off, decoded}
use pnf.Base.{ℕ, zero, suc, Option}
use pnf.Base.Slices.{take}
use pnf.TcpConn.Traffic.{data_of, bundles_of, data_if, bundle_if, sent_by, data_by, bundles_by}

module _ {E Encoder Decoder : Type 0} (codec : StreamCodec (Payload E) Encoder Decoder)
    (law : IsStream codec) where
  -- The payloads on their way: those whose bytes the reader can still read, those that an error has
  -- stopped, and then those that the sender has not written.
  pub record Flow (l : Link E Encoder Decoder) : Type 0 where
    pub good : List (Payload E)
    pub stuck : List (Payload E)
    pub chain :
        (r : Reader Decoder)
        → l.reader ≡ some r
        → InFlight codec law l.writer r.decoder (r.unread ++ l.wire) good
    pub flows : (e : Encoder) → l.writer ≡ some e → stuck ≡ []

  abbrev pub pending : (l : Link E Encoder Decoder) → Flow l → List (Payload E)
  pending l f = f.good ++ (f.stuck ++ l.outbox)

  -- What one step does: what was on its way and what is sent now is taken or still on its way, and
  -- what was held and is taken now is given or still held.
  pub record Moved (l : Link E Encoder Decoder) (f : Flow l) (x : Label E)
      (m : Link E Encoder Decoder) : Type 0 where
    pub flow : Flow m
    pub taken : List (Payload E)
    pub payloads : pending l f ++ sent_by x ≡ taken ++ pending m flow
    pub data' : held l.data_inbox ++ data_of taken ≡ data_by x ++ held m.data_inbox
    pub bundles : held l.bundle_inbox ++ bundles_of taken ≡ bundles_by x ++ held m.bundle_inbox

  sends-Moved :
      (l : Link E Encoder Decoder) (f : Flow l) (p : Payload E)
      → Moved l f (sends p) (record l { outbox = enqueue p l.outbox })
  unfolding enqueue data_of bundles_of
  sends-Moved l f p = record {
    flow = record { good = f.good; stuck = f.stuck; chain = f.chain; flows = f.flows };
    taken = [];
    payloads =
        append_assoc f.good (f.stuck ++ l.outbox) (p ∷ [])
        ∙ ap (λ k. f.good ++ k) (append_assoc f.stuck l.outbox (p ∷ []));
    data' = append-nil (held l.data_inbox);
    bundles = append-nil (held l.bundle_inbox);
  }

  -- a step that only moves what is held
  inboxes-Moved :
      (l : Link E Encoder Decoder) (f : Flow l) (x : Label E) (i : Inbox Bytes)
      (j : Inbox (FrameBundle E))
      → sent_by x ≡ []
      → held l.data_inbox ≡ data_by x ++ held i
      → held l.bundle_inbox ≡ bundles_by x ++ held j
      → Moved l f x (record l { data_inbox = i; bundle_inbox = j })
  unfolding data_of bundles_of
  inboxes-Moved l f x i j none_sent a b = record {
    flow = record { good = f.good; stuck = f.stuck; chain = f.chain; flows = f.flows };
    taken = [];
    payloads = ap (λ k. pending l f ++ k) none_sent ∙ append-nil (pending l f);
    data' = append-nil (held l.data_inbox) ∙ a;
    bundles = append-nil (held l.bundle_inbox) ∙ b;
  }

  dequeue_lem :
      (xs : List (Payload E)) (p : Payload E) (rest : List (Payload E))
      → dequeue xs ≡ some (p, rest)
      → xs ≡ p ∷ rest
  unfolding dequeue
  dequeue_lem [] p rest h = cc
  dequeue_lem (q ∷ xs) p rest h = ap (λ r. r.0 ∷ r.1) (some-injective (q, xs) (p, rest) h)

  -- `writeRoutine` ends before it has written the payload, of which a part may be on the wire.
  stopped-Moved :
      (l : Link E Encoder Decoder) (f : Flow l) (p : Payload E) (rest : List (Payload E))
      (part : Bytes)
      → l.outbox ≡ p ∷ rest
      → ((r : Reader Decoder)
          → l.reader ≡ some r
          → InFlight codec law none r.decoder ((r.unread ++ l.wire) ++ part) f.good)
      → Moved l f internal (record l { outbox = rest; writer = none; wire = l.wire ++ part })
  unfolding data_of bundles_of
  stopped-Moved l f p rest part h chain = record {
    flow = record {
      good = f.good;
      stuck = f.stuck ++ (p ∷ []);
      chain = λ r q.
          subst (λ k. InFlight codec law none r.decoder k f.good)
            (append_assoc r.unread l.wire part) (chain r q);
      flows = λ k q. cc;
    };
    taken = [];
    payloads =
        append-nil (pending l f)
        ∙ ap (λ k. f.good ++ k)
            (ap (λ k. f.stuck ++ k) h ∙ sym (append_assoc f.stuck (p ∷ []) rest));
    data' = append-nil (held l.data_inbox);
    bundles = append-nil (held l.bundle_inbox);
  }

  -- It writes all of the payload.
  written-Moved :
      (l : Link E Encoder Decoder) (f : Flow l) (p : Payload E) (rest : List (Payload E))
      (e : Encoder) (w : Option Encoder) (b : Bytes)
      → l.outbox ≡ p ∷ rest
      → l.writer ≡ some e
      → ((r : Reader Decoder)
          → l.reader ≡ some r
          → InFlight codec law w r.decoder ((r.unread ++ l.wire) ++ b) (f.good ++ (p ∷ [])))
      → Moved l f internal (record l { outbox = rest; writer = w; wire = l.wire ++ b })
  unfolding data_of bundles_of
  written-Moved l f p rest e w b h at chain = record {
    flow = record {
      good = f.good ++ (p ∷ []);
      stuck = [];
      chain = λ r q.
          subst (λ k. InFlight codec law w r.decoder k (f.good ++ (p ∷ [])))
            (append_assoc r.unread l.wire b) (chain r q);
      flows = λ k q. refl;
    };
    taken = [];
    payloads =
        append-nil (pending l f)
        ∙ ap (λ k. f.good ++ k) (ap₂ ◌++◌ (f.flows e at) h)
        ∙ sym (append_assoc f.good (p ∷ []) rest);
    data' = append-nil (held l.data_inbox);
    bundles = append-nil (held l.bundle_inbox);
  }

  nothing_written :
      (l : Link E Encoder Decoder) (f : Flow l) (p : Payload E) (rest : List (Payload E))
      → l.outbox ≡ p ∷ rest
      → Moved l f internal (record l { outbox = rest; writer = none; wire = l.wire ++ [] })
  nothing_written l f p rest h = stopped-Moved l f p rest [] h (λ r q.
      subst (λ k. InFlight codec law none r.decoder k f.good)
        (sym (append-nil (r.unread ++ l.wire)))
        (ended codec law l.writer r.decoder (r.unread ++ l.wire) f.good (f.chain r q)))

  rest_of : (n : ℕ) (b : Bytes) → (c : Bytes) × (b ≡ take n b ++ c)
  rest_of zero b = (b, refl)
  rest_of (suc n) [] = ([], refl)
  rest_of (suc n) (x ∷ b) = let (c, e) = rest_of n b in (c, ap (◌∷◌ x) e)

  module _ (l : Link E Encoder Decoder) (f : Flow l) (p : Payload E) (rest : List (Payload E))
      (e e' : Encoder) (b : Bytes) (h : l.outbox ≡ p ∷ rest) (w : l.writer ≡ some e)
      (bytes : codec.encode e p ≡ some (b, e')) where
    in_step :
        (r : Reader Decoder)
        → l.reader ≡ some r
        → InFlight codec law (some e) r.decoder (r.unread ++ l.wire) f.good
    in_step r q =
        subst (λ k. InFlight codec law k r.decoder (r.unread ++ l.wire) f.good) w (f.chain r q)

    whole :
        (r : Reader Decoder)
        → l.reader ≡ some r
        → InFlight codec law (some e') r.decoder ((r.unread ++ l.wire) ++ b) (f.good ++ (p ∷ []))
    whole r q = written codec law e e' r.decoder (r.unread ++ l.wire) b f.good p bytes (in_step r q)

    -- The socket gives an error, after it has taken a part.
    failed-Moved :
        (part c : Bytes)
        → b ≡ part ++ c
        → Moved l f internal (record l { outbox = rest; writer = none; wire = l.wire ++ part })
    failed-Moved part [] split = written-Moved l f p rest e none part h w (λ r q.
        subst
          (λ k. InFlight codec law none r.decoder ((r.unread ++ l.wire) ++ k) (f.good ++ (p ∷ [])))
          (split ∙ append-nil part)
          (ended codec law (some e') r.decoder ((r.unread ++ l.wire) ++ b) (f.good ++ (p ∷ []))
            (whole r q)))
    failed-Moved part (x ∷ c) split = stopped-Moved l f p rest part h (λ r q.
        cut_off codec law e e' r.decoder (r.unread ++ l.wire) part (x ∷ c) f.good p
          (subst (λ k. codec.encode e p ≡ some (k, e')) split bytes) (λ k. cc) (in_step r q))

  write-Moved :
      (l : Link E Encoder Decoder) (f : Flow l) (p : Payload E) (rest : List (Payload E))
      (e : Encoder)
      → l.outbox ≡ p ∷ rest
      → l.writer ≡ some e
      → (failed : Option ℕ)
      → Moved l f internal (record l {
        outbox = rest;
        writer = (write_routine codec p failed e).1;
        wire = l.wire ++ (write_routine codec p failed e).0;
      })
  unfolding write_routine
  write-Moved l f p rest e h w none = elim (Option-cases (codec.encode e p)) [
    | inl no_bytes ↦ rw (write_routine, no_bytes) (nothing_written l f p rest h)
    | inr ((b, e'), bytes) ↦
        rw (write_routine, bytes)
          (written-Moved l f p rest e (some e') b h w (whole l f p rest e e' b h w bytes))
  ]
  write-Moved l f p rest e h w (some n) = elim (Option-cases (codec.encode e p)) [
    | inl no_bytes ↦ rw (write_routine, no_bytes) (nothing_written l f p rest h)
    | inr ((b, e'), bytes) ↦
        let (c, split) = rest_of n b in
        rw (write_routine, bytes) (failed-Moved l f p rest e e' b h w bytes (take n b) c split)
  ]

  read-Moved :
      (l : Link E Encoder Decoder) (f : Flow l) (chunk rest : Bytes) (r r' : Reader Decoder)
      (p : Payload E) (i : Inbox Bytes) (j : Inbox (FrameBundle E))
      → l.wire ≡ chunk ++ rest
      → chunk ≢ []
      → l.reader ≡ some r
      → decode_once codec chunk r ≡ some (p, r')
      → held i ≡ held l.data_inbox ++ data_of (p ∷ [])
      → held j ≡ held l.bundle_inbox ++ bundles_of (p ∷ [])
      → Moved l f internal
          (record l { wire = rest; reader = some r'; data_inbox = i; bundle_inbox = j })
  read-Moved l f chunk rest r r' p i j w ne h d a b =
      let (qs, front, more) = decoded codec law l.writer r r' chunk rest p f.good ne d (
        subst (λ k. InFlight codec law l.writer r.decoder (r.unread ++ k) f.good) w
          (f.chain r h)) in
      record {
        flow = record {
          good = qs;
          stuck = f.stuck;
          chain = λ k q.
              subst (λ x. InFlight codec law l.writer x.decoder (x.unread ++ rest) qs)
                (some-injective r' k q) more;
          flows = f.flows;
        };
        taken = p ∷ [];
        payloads = append-nil (pending l f) ∙ ap (λ k. k ++ (f.stuck ++ l.outbox)) front;
        data' = sym a;
        bundles = sym b;
      }

  read_error-Moved :
      (l : Link E Encoder Decoder) (f : Flow l) (rest : Bytes)
      → Moved l f internal (record l { wire = rest; reader = none })
  unfolding data_of bundles_of
  read_error-Moved l f rest = record {
    flow = record { good = f.good; stuck = f.stuck; chain = λ r h. cc; flows = f.flows };
    taken = [];
    payloads = append-nil (pending l f);
    data' = append-nil (held l.data_inbox);
    bundles = append-nil (held l.bundle_inbox);
  }

  -- one payload, in the inbox that it is for
  data_in :
      (p : Payload E) (i j : Inbox Bytes)
      → p.bundle ≡ none
      → put_in p.content i ≡ some j
      → held j ≡ held i ++ data_of (p ∷ [])
  unfolding data_of data_if
  data_in p i j none_there h = rw none_there (put_in-held p.content i j h)

  no_bundle_in :
      (p : Payload E) (j : Inbox (FrameBundle E))
      → p.bundle ≡ none
      → held j ≡ held j ++ bundles_of (p ∷ [])
  unfolding bundles_of bundle_if
  no_bundle_in p j none_there = rw none_there (sym (append-nil (held j)))

  bundle_in :
      (p : Payload E) (x : FrameBundle E) (i j : Inbox (FrameBundle E))
      → p.bundle ≡ some x
      → put_in x i ≡ some j
      → held j ≡ held i ++ bundles_of (p ∷ [])
  unfolding bundles_of bundle_if
  bundle_in p x i j there h = rw there (put_in-held x i j h)

  no_data_in :
      (p : Payload E) (x : FrameBundle E) (j : Inbox Bytes)
      → p.bundle ≡ some x
      → held j ≡ held j ++ data_of (p ∷ [])
  unfolding data_of data_if
  no_data_in p x j there = rw there (sym (append-nil (held j)))

  pub Step-Moved :
      {l m : Link E Encoder Decoder} {x : Label E} (f : Flow l) → Step codec l m x → Moved l f x m
  Step-Moved {l} f (send_data b e) = subst (Moved l f _) (sym e) (sends-Moved l f (data_payload b))
  Step-Moved {l} f (send_frame_bundle b e) =
      subst (Moved l f _) (sym e) (sends-Moved l f (bundle_payload b))
  Step-Moved {l} f (write p rest e failed h w q) =
      subst (Moved l f _) (sym q)
        (write-Moved l f p rest e (dequeue_lem l.outbox p rest h) w failed)
  Step-Moved {l} f (read_data chunk rest r r' p i w ne h d n k q) = subst (Moved l f _) (sym q) (
      read-Moved l f chunk rest r r' p i l.bundle_inbox w ne h d (data_in p l.data_inbox i n k)
        (no_bundle_in p l.bundle_inbox n))
  Step-Moved {l} f (read_bundle chunk rest r r' p b j w ne h d n k q) =
      subst (Moved l f _) (sym q) (
        read-Moved l f chunk rest r r' p l.data_inbox j w ne h d (no_data_in p b l.data_inbox n)
          (bundle_in p b l.bundle_inbox j n k))
  Step-Moved {l} f (read_error chunk rest r w ne h d q) =
      subst (Moved l f _) (sym q) (read_error-Moved l f rest)
  Step-Moved {l} f (take_data i h q) =
      subst (Moved l f _) (sym q) (
        inboxes-Moved l f internal i l.bundle_inbox refl (sym (take_in-held l.data_inbox i h)) refl)
  Step-Moved {l} f (pass_data i h q) =
      subst (Moved l f _) (sym q) (
        inboxes-Moved l f internal i l.bundle_inbox refl (sym (pass_on-held l.data_inbox i h)) refl)
  Step-Moved {l} f (recv_data b i h q) =
      subst (Moved l f _) (sym q)
        (inboxes-Moved l f (gives_data b) i l.bundle_inbox refl (give-held b l.data_inbox i h) refl)
  Step-Moved {l} f (take_bundle i h q) =
      subst (Moved l f _) (sym q) (
        inboxes-Moved l f internal l.data_inbox i refl refl (sym (take_in-held l.bundle_inbox i h)))
  Step-Moved {l} f (pass_bundle i h q) =
      subst (Moved l f _) (sym q) (
        inboxes-Moved l f internal l.data_inbox i refl refl (sym (pass_on-held l.bundle_inbox i h)))
  Step-Moved {l} f (recv_frame_bundle b i h q) =
      subst (Moved l f _) (sym q) (
        inboxes-Moved l f (gives_bundle b) l.data_inbox i refl refl
          (give-held b l.bundle_inbox i h))
  -- What a run does.
