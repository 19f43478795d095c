-- ===== src/Tests/Codecs.antt =====
-- Codecs that write two numbers for a value, in place of encoding/gob.
pub mod Tcp
pub mod Mock
use pnf.Base.{
  ◌≡◌, ◌≢◌, refl, sym, ◌∙◌, ap, subst, ℕ, zero, suc, Option, none, some, List, [], ◌∷◌, ◌++◌,
  Option-cases, inl, inr, arith,
}
use mathlib.Core.Option.{some-injective}
use mathlib.Core.List.{head-eq_of_cons-eq, tail-eq_of_cons-eq}
use pnf.Event.{FrameBundle}
use pnf.Event.{AllEvents}
use pnf.Engine.{EngineEvent, engine_joined, engine_dropped}
use pnf.TcpConn.{Bytes, Payload, StreamCodec}
use pnf.TcpConn.Order.{IsStream}
use pnf.Event.Gob.{
  GobValue, count, game_event, engine_event, encode_each, encode_list, gob_encode, gob_decode,
}
use pnf.Base.Words.{truncate}
use pnf.Event.Gob.RoundTrip.{gob_decode-gob_encode}

module _ {P : Type 0} (to_pair : P → Option (ℕ × ℕ)) (of_pair : ℕ → ℕ → Option P) where
  abbrev write_pair : Option (ℕ × ℕ) → Option (Bytes × Unit {0})
  write_pair none = none
  write_pair (some p) = some (p.0 ∷ p.1 ∷ [], tt)

  abbrev read_pair : Bytes → Option (P × (Bytes × Unit {0}))
  read_pair [] = none
  read_pair (a ∷ []) = none
  read_pair (a ∷ b ∷ rest) = elim (of_pair a b) [ none ↦ none | some p ↦ some (p, (rest, tt)) ]

  abbrev pub pairs : StreamCodec P (Unit {0}) (Unit {0})
  pairs = record {
    new_encoder = tt;
    new_decoder = tt;
    encode = λ e p. write_pair (to_pair p);
    decode = λ d bytes. read_pair bytes;
  }

  module _ (back : (p : P) (a b : ℕ) → to_pair p ≡ some (a, b) → of_pair a b ≡ some p) where
    written_pair :
        (o : Option (ℕ × ℕ)) (b : Bytes) (e : Unit {0})
        → write_pair o ≡ some (b, e)
        → (x : ℕ) × (y : ℕ) × (o ≡ some (x, y)) × (x ∷ y ∷ [] ≡ b)
    written_pair none b e h = cc
    written_pair (some (x, y)) b e h =
        (x, y, refl, ap (λ k. k.0) (some-injective (x ∷ y ∷ [], tt) (b, e) h))

    half_pair : (x y : ℕ) (b c : Bytes) → x ∷ y ∷ [] ≡ b ++ c → c ≢ [] → read_pair b ≡ none
    half_pair x y [] c h ne = refl
    half_pair x y (k ∷ []) c h ne = refl
    half_pair x y (k ∷ l ∷ b) [] h ne = absurd (ne refl)
    half_pair x y (k ∷ l ∷ []) (m ∷ c) h ne =
        absurd (let e = tail-eq_of_cons-eq (tail-eq_of_cons-eq h) in cc)
    half_pair x y (k ∷ l ∷ j ∷ b) (m ∷ c) h ne =
        absurd (let e = tail-eq_of_cons-eq (tail-eq_of_cons-eq h) in cc)

    pub pairs-IsStream : IsStream pairs
    pairs-IsStream = record {
      Matches = λ e d. Unit {0};
      new-Matches = tt;
      reads_back = λ e d p b e' m h.
          let (x, y, o, w) = written_pair (to_pair p) b e' h in
          (tt, tt, λ rest. ap (λ k. read_pair (k ++ rest)) (sym w) ∙ rw (back p x y o) refl);
      incomplete = λ e d p e' b c m h ne.
          let (x, y, o, w) = written_pair (to_pair p) (b ++ c) e' h in half_pair x y b c w ne;
    }

abbrev gob_pair : GobValue ℕ → Option (ℕ × ℕ)
gob_pair (count n) = some (0, n)
gob_pair (game_event e) = some (1, e)
gob_pair (engine_event (engine_joined id)) = some (2, id)
gob_pair (engine_event (engine_dropped id)) = some (3, id)

abbrev of_gob_pair : ℕ → ℕ → Option (GobValue ℕ)
of_gob_pair zero n = some (count n)
of_gob_pair (suc zero) n = some (game_event n)
of_gob_pair (suc (suc zero)) n = some (engine_event (engine_joined n))
of_gob_pair (suc (suc (suc zero))) n = some (engine_event (engine_dropped n))
of_gob_pair (suc (suc (suc (suc k)))) n = none

module _ {P : Type 0} (of_pair : ℕ → ℕ → Option P) (p : P) where
  pub moved :
      (x y a b : ℕ)
      → ◌≡◌ {A = Option (ℕ × ℕ)} (some (x, y)) (some (a, b))
      → of_pair x y ≡ some p
      → of_pair a b ≡ some p
  moved x y a b h e = subst (λ k. of_pair k.0 k.1 ≡ some p) (some-injective (x, y) (a, b) h) e

gob_pair_back : (p : GobValue ℕ) (a b : ℕ) → gob_pair p ≡ some (a, b) → of_gob_pair a b ≡ some p
gob_pair_back (count n) a b h = moved of_gob_pair (count n) 0 n a b h refl
gob_pair_back (game_event e) a b h = moved of_gob_pair (game_event e) 1 e a b h refl
gob_pair_back (engine_event (engine_joined id)) a b h =
    moved of_gob_pair (engine_event (engine_joined id)) 2 id a b h refl
gob_pair_back (engine_event (engine_dropped id)) a b h =
    moved of_gob_pair (engine_event (engine_dropped id)) 3 id a b h refl

abbrev two_and_one : AllEvents ℕ
two_and_one = record { game = 7 ∷ 9 ∷ []; engine = engine_joined 4 ∷ [] }

gob_decode-gob_encode_example :
    gob_decode (pairs gob_pair of_gob_pair) (0 ∷ 2 ∷ 1 ∷ 7 ∷ 1 ∷ 9 ∷ 0 ∷ 1 ∷ 2 ∷ 4 ∷ [])
    ≡ some two_and_one
unfolding gob_encode encode_list encode_each truncate
gob_decode-gob_encode_example =
    gob_decode-gob_encode (pairs gob_pair of_gob_pair)
      (pairs-IsStream gob_pair of_gob_pair gob_pair_back) two_and_one
      (0 ∷ 2 ∷ 1 ∷ 7 ∷ 1 ∷ 9 ∷ 0 ∷ 1 ∷ 2 ∷ 4 ∷ []) (omega arith) (omega arith) refl
