-- ===== src/Updater/Tracks/Ledger.antt =====
-- What has happened: the events of each engine at each frame, in no order, and how bundles enter it.
use pnf.Base.{
  ◌⊎◌, inl, inr, ◌≡◌, refl, sym, ◌∙◌, subst, ℕ, ◌+◌, ◌<◌, ◌==◌, Option, none, some, List, [], ◌∷◌,
  ◌++◌, arith, Bool-cases, ==_refl, ==→eq,
}
use pnf.Base.GoMap.{entries, find}
use pnf.Event.{EventBundle, AllEvents, FrameBundle}
use pnf.Event.Keys.{IsKeyed}
use pnf.Event.Absorb.{either, either-none}
use pnf.Updater.Tracks.Group.{bundle_at, arrived, AllNew, either_assoc}
use pnf.Updater.Tracks.Member.{Spares}

-- the events of a frame and an engine
abbrev pub Ledger : Type 0 → Type 0
Ledger E = ℕ → ℕ → Option (AllEvents E)

module _ {E : Type 0} where
  abbrev pub enter : FrameBundle E → Ledger E → Ledger E
  enter b l q k = either (l q k) (bundle_at b q k)

  unfoldable pub enter_all : List (FrameBundle E) → Ledger E → Ledger E
  enter_all [] l = l
  enter_all (b ∷ bs) l = enter_all bs (enter b l)

  -- A bundle that may come: it has each engine once, none whose events of the frame are in the
  -- ledger, and it does not drop the engine `id`.
  pub record IsFresh (id : ℕ) (l : Ledger E) (b : FrameBundle E) : Type 0 where
    pub keyed : IsKeyed (entries b.bundle)
    pub apart : (k : ℕ) → (find k (entries b.bundle) ≡ none) ⊎ (l b.frame k ≡ none)
    pub spares : (k : ℕ) → Spares id (find k (entries b.bundle))

  -- Each bundle may come after those before it.
  abbrev pub AllFresh : ℕ → Ledger E → List (FrameBundle E) → Type 0
  AllFresh id l [] = Unit
  AllFresh id l (b ∷ bs) = IsFresh id l b × AllFresh id (enter b l) bs

  -- the bundle is for a frame of a window, but its first
  abbrev pub InWindow : ℕ → ℕ → FrameBundle E → Type 0
  InWindow first size b = (first < b.frame) × (b.frame < first + size)

  abbrev pub AllIn : ℕ → ℕ → List (FrameBundle E) → Type 0
  AllIn first size [] = Unit
  AllIn first size (b ∷ bs) = InWindow first size b × AllIn first size bs

  pub enter_all_lem :
      (bs : List (FrameBundle E)) (l : Ledger E) (q k : ℕ)
      → enter_all bs l q k ≡ either (l q k) (arrived bs q k)
  unfolding enter_all arrived
  enter_all_lem [] l q k = either-none (l q k)
  enter_all_lem (b ∷ bs) l q k =
      enter_all_lem bs (enter b l) q k ∙ either_assoc (l q k) (bundle_at b q k) (arrived bs q k)

  pub enter_all-append :
      (bs cs : List (FrameBundle E)) (l : Ledger E)
      → enter_all (bs ++ cs) l ≡ enter_all cs (enter_all bs l)
  unfolding enter_all
  enter_all-append [] cs l = refl
  enter_all-append (b ∷ bs) cs l = enter_all-append bs cs (enter b l)

  pub AllFresh-append :
      (id : ℕ) (bs cs : List (FrameBundle E)) (l : Ledger E)
      → AllFresh id l (bs ++ cs)
      → AllFresh id l bs × AllFresh id (enter_all bs l) cs
  unfolding enter_all
  AllFresh-append id [] cs l f = (tt, f)
  AllFresh-append id (b ∷ bs) cs l f =
      let (x, y) = AllFresh-append id bs cs (enter b l) f.1 in ((f.0, x), y)

  head_apart :
      (o p q : Option (AllEvents E))
      → (p ≡ none) ⊎ (o ≡ none)
      → (either o p ≡ none) ⊎ (q ≡ none)
      → (o ≡ none) ⊎ (either p q ≡ none)
  head_apart o p q d e = ground arith

  at_frame :
      (id : ℕ) (l : Ledger E) (b : FrameBundle E) (q k : ℕ)
      → IsFresh id l b
      → (bundle_at b q k ≡ none) ⊎ (l q k ≡ none)
  at_frame id l b q k f = elim (Bool-cases (b.frame == q)) [
    | inl e ↦ rw e (
        subst (λ j. (find k (entries b.bundle) ≡ none) ⊎ (l j k ≡ none)) (==→eq b.frame q e)
          (f.apart k))
    | inr e ↦ inl (rw e refl)
  ]

  -- What comes is not in the ledger yet.
  fresh_apart :
      (id : ℕ) (bs : List (FrameBundle E)) (l : Ledger E)
      → AllFresh id l bs
      → (q k : ℕ) → (l q k ≡ none) ⊎ (arrived bs q k ≡ none)
  unfolding arrived
  fresh_apart id [] l f q k = inr refl
  fresh_apart id (b ∷ bs) l f q k =
      head_apart (l q k) (bundle_at b q k) (arrived bs q k) (at_frame id l b q k f.0)
        (fresh_apart id bs (enter b l) f.1 q k)

  either_fst : (o p : Option (AllEvents E)) → either o p ≡ none → o ≡ none
  either_fst o p h = ground arith

  either_snd : (o p : Option (AllEvents E)) → either o p ≡ none → p ≡ none
  either_snd o p h = ground arith

  own_frame : (b : FrameBundle E) (k : ℕ) → bundle_at b b.frame k ≡ find k (entries b.bundle)
  own_frame b k = rw (==_refl b.frame) refl

  -- A group that may come is new to an updater that has no more than the ledger.
  pub AllFresh-AllNew :
      (id : ℕ) (bs : List (FrameBundle E)) (l : Ledger E) (events : ℕ → EventBundle E)
      (first size : ℕ)
      → AllFresh id l bs
      → AllIn first size bs
      → ((q k : ℕ) → first < q → l q k ≡ none → find k (entries (events q)) ≡ none)
      → AllNew events first size bs
  AllFresh-AllNew id [] l events first size f i h = tt
  AllFresh-AllNew id (b ∷ bs) l events first size f i h = (
    inr (record {
      after = i.0.0;
      before = i.0.1;
      keyed = f.0.keyed;
      apart = λ k. elim (f.0.apart k) [ inl e ↦ inr e | inr e ↦ inl (h b.frame k i.0.0 e) ];
      alone = λ k. elim (fresh_apart id bs (enter b l) f.1 b.frame k) [
        | inl e ↦ inl (sym (own_frame b k) ∙ either_snd (l b.frame k) (bundle_at b b.frame k) e)
        | inr e ↦ inr e
      ];
    }),
    AllFresh-AllNew id bs (enter b l) events first size f.1 i.1
        (λ q k a e. h q k a (either_fst (l q k) (bundle_at b q k) e)),
  )

  Spares-either :
      (id : ℕ) (o p : Option (AllEvents E)) → Spares id o → Spares id p → Spares id (either o p)
  Spares-either id none p s t = t
  Spares-either id (some a) p s t = s

  Spares-at :
      (id : ℕ) (l : Ledger E) (b : FrameBundle E) (q k : ℕ)
      → IsFresh id l b
      → Spares id (bundle_at b q k)
  Spares-at id l b q k f = elim (Bool-cases (b.frame == q)) [
    | inl e ↦ rw e (f.spares k)
    | inr e ↦ rw e tt
  ]

  pub Spares-enter :
      (id : ℕ) (l : Ledger E) (b : FrameBundle E) (q k : ℕ)
      → IsFresh id l b
      → Spares id (l q k)
      → Spares id (enter b l q k)
  Spares-enter id l b q k f s =
      Spares-either id (l q k) (bundle_at b q k) s (Spares-at id l b q k f)

  pub Spares-enter_all :
      (id : ℕ) (bs : List (FrameBundle E)) (l : Ledger E)
      → AllFresh id l bs
      → (q k : ℕ) → Spares id (l q k)
      → Spares id (enter_all bs l q k)
  unfolding enter_all
  Spares-enter_all id [] l f q k s = s
  Spares-enter_all id (b ∷ bs) l f q k s =
      Spares-enter_all id bs (enter b l) f.1 q k (Spares-enter id l b q k f.0 s)
