-- ===== src/TcpConn/Order.antt =====
-- What the bytes on the way over a connection stand for.
use pnf.Base.{
  ◌≡◌, ◌≢◌, ◌⊎◌, inl, inr, refl, sym, ◌∙◌, ap, subst, Option, none, some, List, [], ◌∷◌, ◌++◌,
}
use mathlib.Core.List.{
  append_assoc, append-nil, append-eq-nil_iff, head-eq_of_cons-eq, tail-eq_of_cons-eq,
}
use mathlib.Core.Path.{ap₂}
use mathlib.Core.Option.{some-injective}
use pnf.TcpConn.{Bytes, Payload, StreamCodec, Reader, decode_once}

-- What the code relies on of encoding/gob: a decoder that has read all that an encoder wrote reads
-- the next value that the encoder writes, whatever follows it, and fails on a part of it.
pub record IsStream {P Encoder Decoder : Type 0} (codec : StreamCodec P Encoder Decoder)
    : Type 1 where
  pub Matches : Encoder → Decoder → Type 0
  pub new-Matches : Matches codec.new_encoder codec.new_decoder
  pub reads_back :
      (e : Encoder) (d : Decoder) (p : P) (b : Bytes) (e' : Encoder)
      → Matches e d
      → codec.encode e p ≡ some (b, e')
      → (d' : Decoder) × Matches e' d'
        × ((rest : Bytes) → codec.decode d (b ++ rest) ≡ some (p, (rest, d')))
  pub incomplete :
      (e : Encoder) (d : Decoder) (p : P) (e' : Encoder) (b c : Bytes)
      → Matches e d
      → codec.encode e p ≡ some (b ++ c, e')
      → c ≢ []
      → codec.decode d b ≡ none

-- Of two ways to split a list, one is finer at the front.
split_cases :
    (x z b rest : Bytes)
    → x ++ z ≡ b ++ rest
    → ((u : Bytes) × (x ≡ b ++ u) × (u ++ z ≡ rest)) ⊎ ((y : Bytes) × (y ≢ []) × (b ≡ x ++ y))
split_cases x z [] rest h = inl (x, refl, h)
split_cases [] z (k ∷ b) rest h = inr (k ∷ b, (λ e. cc), refl)
split_cases (j ∷ x) z (k ∷ b) rest h =
    let same = head-eq_of_cons-eq h in
    let h' = tail-eq_of_cons-eq h in
    elim (split_cases x z b rest h') [
      | inl (u, e, g) ↦ inl (u, ap₂ ◌∷◌ same e, g)
      | inr (y, ne, e) ↦ inr (y, ne, ap₂ ◌∷◌ (sym same) e)
    ]

module _ {E Encoder Decoder : Type 0} (codec : StreamCodec (Payload E) Encoder Decoder)
    (law : IsStream codec) where
  -- The bytes are the first of what an encoder has written for a payload, and more were to come.
  abbrev pub IsCut : Decoder → Bytes → Type 0
  IsCut d bytes =
      (e : Encoder) × (p : Payload E) × (e' : Encoder) × (c : Bytes) × law.Matches e d
      × (codec.encode e p ≡ some (bytes ++ c, e'))
      × (c ≢ [])

  -- The bytes are those of some payloads, one after the other, as the decoder can read them, and the
  -- writer, unless it has ended, goes on from there; if it has, a part of another payload may follow.
  abbrev pub InFlight : Option Encoder → Decoder → Bytes → List (Payload E) → Type 0
  InFlight w d bytes [] =
      ((bytes ≡ []) × ((e : Encoder) → w ≡ some e → law.Matches e d)) ⊎ ((w ≡ none) × IsCut d bytes)
  InFlight w d bytes (p ∷ ps) =
      (e : Encoder) × (e' : Encoder) × (b : Bytes) × (rest : Bytes) × (d' : Decoder) × law.Matches e
        d
      × (codec.encode e p ≡ some (b, e'))
      × (bytes ≡ b ++ rest)
      × ((r : Bytes) → codec.decode d (b ++ r) ≡ some (p, (r, d')))
      × InFlight w d' rest ps

  pub written :
      (e e' : Encoder) (d : Decoder) (bytes b : Bytes) (ps : List (Payload E)) (p : Payload E)
      → codec.encode e p ≡ some (b, e')
      → InFlight (some e) d bytes ps
      → InFlight (some e') d (bytes ++ b) (ps ++ (p ∷ []))
  written e e' d bytes b [] p h (inr (gone, cut)) = cc
  written e e' d bytes b [] p h (inl (none_left, m)) =
      let (d', m', back) = law.reads_back e d p b e' (m e refl) h in
      (
        e,
        e',
        b,
        [],
        d',
        m e refl,
        h,
        ap (λ x. x ++ b) none_left ∙ sym (append-nil b),
        back,
        inl (refl, λ k q. subst (λ x. law.Matches x d') (some-injective e' k q) m'),
      )
  written e e' d bytes b (q ∷ ps) p h (f, f', c, rest, d', m, g, split, back, more) = (
    f,
    f',
    c,
    rest ++ b,
    d',
    m,
    g,
    ap (λ x. x ++ b) split ∙ append_assoc c rest b,
    back,
    written e e' d' rest b ps p h more,
  )

  pub ended :
      (w : Option Encoder) (d : Decoder) (bytes : Bytes) (ps : List (Payload E))
      → InFlight w d bytes ps
      → InFlight none d bytes ps
  ended w d bytes [] (inl (e, m)) = inl (e, λ k q. cc)
  ended w d bytes [] (inr (gone, cut)) = inr (refl, cut)
  ended w d bytes (p ∷ ps) (e, e', b, rest, d', m, g, split, back, more) =
      (e, e', b, rest, d', m, g, split, back, ended w d' rest ps more)

  -- The writer ends in the middle of a payload.
  pub cut_off :
      (e e' : Encoder) (d : Decoder) (bytes b c : Bytes) (ps : List (Payload E)) (p : Payload E)
      → codec.encode e p ≡ some (b ++ c, e')
      → c ≢ []
      → InFlight (some e) d bytes ps
      → InFlight none d (bytes ++ b) ps
  cut_off e e' d bytes b c [] p h ne (inr (gone, cut)) = cc
  cut_off e e' d bytes b c [] p h ne (inl (none_left, m)) =
      inr (refl, subst (IsCut d) (sym (ap (λ x. x ++ b) none_left)) (e, p, e', c, m e refl, h, ne))
  cut_off e e' d bytes b c (q ∷ ps) p h ne (f, f', k, rest, d', m, g, split, back, more) = (
    f,
    f',
    k,
    rest ++ b,
    d',
    m,
    g,
    ap (λ x. x ++ b) split ∙ append_assoc k rest b,
    back,
    cut_off e e' d' rest b c ps p h ne more,
  )

  abbrev reader_at : Bytes → Decoder → Reader Decoder
  reader_at u d = record { unread = u; decoder = d }

  decode_once_lem :
      (r : Reader Decoder) (chunk : Bytes) (q : Payload E) (u : Bytes) (d' : Decoder)
      → codec.decode r.decoder (r.unread ++ chunk) ≡ some (q, (u, d'))
      → decode_once codec chunk r ≡ some (q, reader_at u d')
  unfolding decode_once
  decode_once_lem r chunk q u d' e = rw (decode_once, e)

  decode_once-none :
      (r : Reader Decoder) (chunk : Bytes)
      → codec.decode r.decoder (r.unread ++ chunk) ≡ none
      → decode_once codec chunk r ≡ none
  unfolding decode_once
  decode_once-none r chunk e = rw (decode_once, e)

  -- A read that decodes takes the first payload.
  pub decoded :
      (w : Option Encoder) (r r' : Reader Decoder) (chunk rest : Bytes) (p : Payload E)
      (ps : List (Payload E))
      → chunk ≢ []
      → decode_once codec chunk r ≡ some (p, r')
      → InFlight w r.decoder (r.unread ++ (chunk ++ rest)) ps
      → (qs : List (Payload E)) × (ps ≡ p ∷ qs) × InFlight w r'.decoder (r'.unread ++ rest) qs
  decoded w r r' chunk rest p [] ne h (inr (gone, (e, q, e', c, m, g, some_left))) =
      let whole : codec.encode e q ≡ some ((r.unread ++ chunk) ++ (rest ++ c), e') =
        g
        ∙ ap (λ x. some (x, e'))
            (append_assoc r.unread (chunk ++ rest) c
              ∙ ap (λ x. r.unread ++ x) (append_assoc chunk rest c)
              ∙ sym (append_assoc r.unread chunk (rest ++ c))) in
      let failed : decode_once codec chunk r ≡ none = decode_once-none r chunk (
        law.incomplete e r.decoder q e' (r.unread ++ chunk) (rest ++ c) m whole
          (λ k. some_left ((append-eq-nil_iff {p = rest} {q = c}).0 k).1)) in
      absurd cc
  decoded w r r' chunk rest p [] ne h (inl (e, m)) = absurd (
      ne
        ((append-eq-nil_iff {p = chunk} {q = rest}).0
          ((append-eq-nil_iff {p = r.unread} {q = chunk ++ rest}).0 e).1).0)
  decoded w r r' chunk rest p (q ∷ ps) ne h (e, e', b, left, d', m, g, split, back, more) =
      elim (split_cases (r.unread ++ chunk) rest b left
        (append_assoc r.unread chunk rest ∙ split)) [
          | inl (u, at, after) ↦
              let same : (q, reader_at u d') ≡ (p, r') =
                some-injective (q, reader_at u d') (p, r')
                  (sym (decode_once_lem r chunk q u d' (ap (codec.decode r.decoder) at ∙ back u))
                    ∙ h) in
              (
                ps,
                ap (λ x. x.0 ∷ ps) same,
                subst (λ x. InFlight w x.1.decoder (x.1.unread ++ rest) ps) same
                    (subst (λ x. InFlight w d' x ps) (sym after) more),
              )
          | inr (y, some_left, part) ↦
              let failed : decode_once codec chunk r ≡ none = decode_once-none r chunk (
                law.incomplete e r.decoder q e' (r.unread ++ chunk) y m
                  (subst (λ x. codec.encode e q ≡ some (x, e')) part g) some_left) in
              absurd cc
        ]
