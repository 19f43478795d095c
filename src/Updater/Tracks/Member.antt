-- ===== src/Updater/Tracks/Member.antt =====
-- An engine that nobody drops takes part in every later frame.
use pnf.Base.{
  ◌⊎◌, subst, ◌≢◌, ◌≡◌, refl, sym, ◌∙◌, ap, ℕ, suc, true, Bool, Option, none, some, List, [], ◌∷◌,
  arith, inl, inr, Bool-cases, ==_refl, ◌==◌,
}
use pnf.Base.GoMap.{find, find-put, find-without, put, without, entries}
use pnf.Engine.{EngineEvent, engine_joined, engine_dropped}
use pnf.Event.{EventBundle, AllEvents}
use pnf.Event.Keys.{IsKeyed, find_tail}
use pnf.Event.Visits.{in_order, IsAscending, in_order_sorted, find_below}
use pnf.Game.{GameOps}
use pnf.Updater.Advance.{all_present}
use pnf.Updater.Replay.{World, change_engines, all_changes, next_world}

-- none of the events drops the engine
abbrev pub NoDrop : ℕ → List EngineEvent → Type 0
NoDrop id [] = Unit
NoDrop id (engine_joined j ∷ es) = NoDrop id es
NoDrop id (engine_dropped j ∷ es) = (j ≢ id) × NoDrop id es

change_engines-NoDrop :
    (id : ℕ) (events : List EngineEvent) (es : List (ℕ × Bool))
    → NoDrop id events
    → find id es ≢ none
    → find id (change_engines events es) ≢ none
unfolding change_engines
change_engines-NoDrop id [] es n h = h
change_engines-NoDrop id (engine_joined j ∷ events) es n h =
    change_engines-NoDrop id events (put j true es) n (ground (arith, find-put j id true es))
change_engines-NoDrop id (engine_dropped j ∷ events) es n h =
    change_engines-NoDrop id events (without j es) n.1 (ground (arith, find-without j id es))

module _ {E : Type 0} where
  abbrev AllOf : (AllEvents E → Type 0) → List (ℕ × AllEvents E) → Type 0
  AllOf P [] = Unit
  AllOf P ((k, a) ∷ xs) = P a × AllOf P xs

  -- what a ledger has is so
  abbrev pub IfSome : (AllEvents E → Type 0) → Option (AllEvents E) → Type 0
  IfSome P none = Unit
  IfSome P (some a) = P a

  -- what an engine does that has no `EngineDropped` of this one
  abbrev pub Spares : ℕ → Option (AllEvents E) → Type 0
  Spares id = IfSome (λ a. NoDrop id a.engine)

  -- what an engine does that changes no engine
  abbrev pub IsQuiet : Option (AllEvents E) → Type 0
  IsQuiet = IfSome (λ a. a.engine ≡ [])

  all_changes-NoDrop :
      (id : ℕ) (xs : List (ℕ × AllEvents E)) (es : List (ℕ × Bool))
      → AllOf (λ a. NoDrop id a.engine) xs
      → find id es ≢ none
      → find id (all_changes xs es) ≢ none
  unfolding all_changes
  all_changes-NoDrop id [] es n h = h
  all_changes-NoDrop id ((k, a) ∷ xs) es n h =
      all_changes-NoDrop id xs (change_engines a.engine es) n.1
        (change_engines-NoDrop id a.engine es n.0 h)

  head_found :
      (k : ℕ) (a : AllEvents E) (xs : List (ℕ × AllEvents E)) → find k ((k, a) ∷ xs) ≡ some a
  unfolding find
  head_found k a xs = rw (==_refl k) refl

  found_later :
      (k j : ℕ) (a : AllEvents E) (xs : List (ℕ × AllEvents E))
      → IsAscending (suc k) xs
      → (find j xs ≡ none) ⊎ (find j ((k, a) ∷ xs) ≡ find j xs)
  unfolding find
  found_later k j a xs v = elim (Bool-cases (k == j)) [
    | inl e ↦ ground (arith, find_below (suc k) j xs v)
    | inr e ↦ inr (rw e refl)
  ]

  AllOf-found :
      (P : AllEvents E → Type 0) (lo : ℕ) (xs : List (ℕ × AllEvents E))
      → IsAscending lo xs
      → ((k : ℕ) → IfSome P (find k xs))
      → AllOf P xs
  AllOf-found P lo [] v s = tt
  AllOf-found P lo ((k, a) ∷ xs) v s = (
    subst (IfSome P) (head_found k a xs) (s k),
    AllOf-found P (suc k) xs v.1 (λ j. elim (found_later k j a xs v.1) [
      | inl e ↦ rw e tt
      | inr e ↦ subst (IfSome P) e (s j)
    ]),
  )

  -- what all engines do in a frame, in order
  in_order-AllOf :
      (P : AllEvents E → Type 0) (b : EventBundle E)
      → IsKeyed (entries b)
      → ((k : ℕ) → IfSome P (find k (entries b)))
      → AllOf P (in_order b)
  in_order-AllOf P b v s =
      let (up, same) = in_order_sorted b v in
      AllOf-found P 0 (in_order b) up (λ k. subst (IfSome P) (sym (same k)) (s k))

  all_changes-quiet :
      (xs : List (ℕ × AllEvents E)) (es : List (ℕ × Bool))
      → AllOf (λ a. a.engine ≡ []) xs
      → all_changes xs es ≡ es
  unfolding all_changes change_engines
  all_changes-quiet [] es q = refl
  all_changes-quiet ((k, a) ∷ xs) es q =
      ap (λ c. all_changes xs (change_engines c es)) q.0 ∙ all_changes-quiet xs es q.1

  -- An engine that takes part in a frame takes part in the next, if the events of that have no
  -- `EngineDropped` of it.
  pub next_world-member :
      {G : Type 0} (ops : GameOps G E) (id : ℕ) (b : EventBundle E) (w : World G)
      → IsKeyed (entries b)
      → ((k : ℕ) → Spares id (find k (entries b)))
      → find id w.engines ≢ none
      → find id (next_world ops b w).engines ≢ none
  unfolding next_world
  next_world-member ops id b w v s h =
      all_changes-NoDrop id (in_order b) w.engines (in_order-AllOf (λ a. NoDrop id a.engine) b v s)
        h

  -- Events that change no engine leave those that take part.
  pub next_world-quiet :
      {G : Type 0} (ops : GameOps G E) (b : EventBundle E) (w : World G)
      → IsKeyed (entries b)
      → ((k : ℕ) → IsQuiet (find k (entries b)))
      → (next_world ops b w).engines ≡ w.engines
  unfolding next_world
  next_world-quiet ops b w v s =
      all_changes-quiet (in_order b) w.engines (in_order-AllOf (λ a. a.engine ≡ []) b v s)

  -- A frame that is complete has events of each engine that takes part.
  pub all_present-found :
      (id : ℕ) (es : List (ℕ × Bool)) (b : EventBundle E)
      → all_present es b ≡ true
      → find id es ≢ none
      → find id (entries b) ≢ none
  unfolding all_present find
  all_present-found id [] b h m = absurd (m refl)
  all_present-found id ((k, j) ∷ es) b h m = ground (arith, all_present-found id es b)

  pub all_present-all :
      (es : List (ℕ × Bool)) (b : EventBundle E)
      → ((k : ℕ) → find k es ≢ none → find k (entries b) ≢ none)
      → all_present es b ≡ true
  unfolding all_present find
  all_present-all [] b h = refl
  all_present-all ((k, j) ∷ es) b h =
      ground
        (arith, h k, ==_refl k, all_present-all es b (λ i m. h i (λ e. m (find_tail i k j es e))))
