-- ===== src/Event/Gob/RoundTrip.antt =====
-- `GobEncode` and `GobDecode` of core/event.go together.
use pnf.Base.{
  ◌≡◌, refl, ◌∙◌, ap, subst, ℕ, suc, ◌^◌, ◌<◌, Option, some, List, [], ◌∷◌, ◌++◌, length,
}
use mathlib.Core.List.{append_assoc, append-nil}
use mathlib.Core.Option.{some-injective}
use pnf.Base.Words.{truncate, truncate_lem}
use pnf.Base.Results.{◌>>=◌, >>=-eq-some}
use pnf.Event.{AllEvents}
use pnf.TcpConn.{Bytes, StreamCodec}
use pnf.TcpConn.Order.{IsStream}
use pnf.Event.Gob.{
  GobValue, count, game_event, engine_event, as_count, as_game, as_engine, encode_each, encode_list,
  gob_encode, decode_as, decode_each, decode_list, gob_decode,
}

module _ {E Encoder Decoder : Type 0} (codec : StreamCodec (GobValue E) Encoder Decoder)
    (law : IsStream codec) where
  -- a decoder reads back what an encoder wrote, whatever follows
  record ReadsBack {X : Type 0} (read : Bytes → Decoder → Option (X × (Bytes × Decoder))) (x : X)
      (b : Bytes) (d : Decoder) (e' : Encoder) : Type 0 where
    next : Decoder
    next_matches : law.Matches e' next
    back : (rest : Bytes) → read (b ++ rest) d ≡ some (x, (rest, next))

  count_back :
      (n : ℕ) (e e' : Encoder) (d : Decoder) (b : Bytes)
      → law.Matches e d
      → codec.encode e (count n) ≡ some (b, e')
      → ReadsBack (decode_as codec as_count) n b d e'
  unfolding decode_as
  count_back n e e' d b m h =
      let (d', m', back) = law.reads_back e d (count n) b e' m h in
      record { next = d'; next_matches = m'; back = λ rest. rw (back rest) }

  module _ {X : Type 0} (wrap : X → GobValue E) (unwrap : GobValue E → Option X)
      (inverse : (x : X) → unwrap (wrap x) ≡ some x) where
    one_back :
        (x : X) (e e' : Encoder) (d : Decoder) (b : Bytes)
        → law.Matches e d
        → codec.encode e (wrap x) ≡ some (b, e')
        → ReadsBack (decode_as codec unwrap) x b d e'
    unfolding decode_as
    one_back x e e' d b m h =
        let (d', m', back) = law.reads_back e d (wrap x) b e' m h in
        record { next = d'; next_matches = m'; back = λ rest. rw (back rest, ◌>>=◌, inverse x) }

    each_back :
        (xs : List X) (e e' : Encoder) (d : Decoder) (b : Bytes)
        → law.Matches e d
        → encode_each codec wrap xs e ≡ some (b, e')
        → ReadsBack (decode_each codec unwrap (length xs)) xs b d e'
    unfolding encode_each decode_each
    each_back [] e e' d b m h =
        subst (λ y. ReadsBack (decode_each codec unwrap 0) [] y.0 d y.1)
          (some-injective ([], e) (b, e') h)
          (record { next = d; next_matches = m; back = λ more. refl })
    each_back (x ∷ xs) e e' d b m h =
        let (first, h1, k1) = >>=-eq-some (codec.encode e (wrap x)) _ (b, e') h in
        let (rest, h2, k2) = >>=-eq-some (encode_each codec wrap xs first.1) _ (b, e') k1 in
        let r1 = one_back x e first.1 d first.0 m h1 in
        let r2 = each_back xs first.1 rest.1 r1.next rest.0 r1.next_matches h2 in
        subst (λ y. ReadsBack (decode_each codec unwrap (suc (length xs))) (x ∷ xs) y.0 d y.1)
          (some-injective (first.0 ++ rest.0, rest.1) (b, e') k2)
          (record {
            next = r2.next;
            next_matches = r2.next_matches;
            back = λ more.
                rw
                  (append_assoc first.0 rest.0 more, r1.back (rest.0 ++ more), ◌>>=◌, r2.back more);
          })

    list_back :
        (xs : List X) (e e' : Encoder) (d : Decoder) (b : Bytes)
        → length xs < 2 ^ 32
        → law.Matches e d
        → encode_list codec wrap xs e ≡ some (b, e')
        → ReadsBack (decode_list codec unwrap) xs b d e'
    unfolding encode_list decode_list
    list_back xs e e' d b short m h =
        let (head, h1, k1) =
          >>=-eq-some (codec.encode e (count (truncate (length xs)))) _ (b, e') h in
        let (each, h2, k2) = >>=-eq-some (encode_each codec wrap xs head.1) _ (b, e') k1 in
        let r1 = count_back (truncate (length xs)) e head.1 d head.0 m h1 in
        let r2 = each_back xs head.1 each.1 r1.next each.0 r1.next_matches h2 in
        subst (λ y. ReadsBack (decode_list codec unwrap) xs y.0 d y.1)
          (some-injective (head.0 ++ each.0, each.1) (b, e') k2)
          (record {
            next = r2.next;
            next_matches = r2.next_matches;
            back = λ more. rw (
              append_assoc head.0 each.0 more,
              r1.back (each.0 ++ more),
              ◌>>=◌,
              truncate_lem (length xs) short,
              r2.back more,
            );
          })

  -- If `GobEncode` gives bytes, for fewer than 2 ^ 32 events of each kind, `GobDecode` reads the same
  -- events from them.
  pub gob_decode-gob_encode :
      (all : AllEvents E) (bytes : Bytes)
      → length all.game < 2 ^ 32
      → length all.engine < 2 ^ 32
      → gob_encode codec all ≡ some bytes
      → gob_decode codec bytes ≡ some all
  unfolding gob_encode gob_decode
  gob_decode-gob_encode all bytes short short' h =
      let (game, h1, k1) =
        >>=-eq-some (encode_list codec game_event all.game codec.new_encoder) _ bytes h in
      let (engine, h2, k2) =
        >>=-eq-some (encode_list codec engine_event all.engine game.1) _ bytes k1 in
      let r1 =
        list_back game_event as_game (λ x. refl) all.game codec.new_encoder game.1 codec.new_decoder
          game.0 short law.new-Matches h1 in
      let r2 =
        list_back engine_event as_engine (λ x. refl) all.engine game.1 engine.1 r1.next engine.0
          short' r1.next_matches h2 in
      let whole : game.0 ++ (engine.0 ++ []) ≡ bytes =
        ap (λ x. game.0 ++ x) (append-nil engine.0)
        ∙ some-injective (game.0 ++ engine.0) bytes k2 in
      subst (λ x. gob_decode codec x ≡ some all) whole
        (rw (gob_decode, r1.back (engine.0 ++ []), ◌>>=◌, r2.back []))
