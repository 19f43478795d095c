-- ===== src/Bundler/Ledger.antt =====
-- The account of a bundler's events: what came in, what is held and what was sent.
use pnf.Base.{◌≡◌, refl, sym, ◌∙◌, ap, subst, ℕ, suc, List, [], ◌∷◌, ◌++◌}
use mathlib.Core.Path.{ap₂}
use mathlib.Core.List.{append_assoc, append-nil}
use pnf.Base.GoMap.{lookup}
use pnf.Event.{FrameBundle, AllEvents, no_events, value_or_zero}
use pnf.Bundler.{Bundler, BundlerInput, local_event, local_engine_event, tick, time_delta}

module _ {E : Type 0} where
  -- events, then later ones
  abbrev pub join : AllEvents E → AllEvents E → AllEvents E
  join a b = record { game = a.game ++ b.game; engine = a.engine ++ b.engine }

  join_assoc : (a b c : AllEvents E) → join (join a b) c ≡ join a (join b c)
  join_assoc a b c =
      ap₂ (λ g e. record { game = g; engine = e }) (append_assoc a.game b.game c.game)
        (append_assoc a.engine b.engine c.engine)

  pub join-no_events : (a : AllEvents E) → join a no_events ≡ a
  join-no_events a =
      ap₂ (λ g e. record { game = g; engine = e }) (append-nil a.game) (append-nil a.engine)

  -- the events of an engine in the bundles that were sent, in the order of the bundles
  unfoldable pub sent_events : ℕ → List (FrameBundle E) → AllEvents E
  sent_events id [] = no_events
  sent_events id (b ∷ bs) = join (value_or_zero (lookup id b.bundle)) (sent_events id bs)

  -- the events among what the bundler received
  unfoldable pub received : List (BundlerInput E) → AllEvents E
  received [] = no_events
  received (local_event e ∷ is) = join (record { game = e ∷ []; engine = [] }) (received is)
  received (local_engine_event e ∷ is) = join (record { game = []; engine = e ∷ [] }) (received is)
  received (tick ∷ is) = received is
  received (time_delta d ∷ is) = received is

  abbrev pub held : Bundler E → AllEvents E
  held b = record { game = b.current_events; engine = b.current_engine_events }

  -- bundles of the frames from `i` up to `j`, one for each
  abbrev pub IsConsecutive : ℕ → List (FrameBundle E) → ℕ → Type 0
  IsConsecutive i [] j = i ≡ j
  IsConsecutive i (b ∷ bs) j = (b.frame ≡ i) × IsConsecutive (suc i) bs j

  sent_events-append :
      (id : ℕ) (xs ys : List (FrameBundle E))
      → sent_events id (xs ++ ys) ≡ join (sent_events id xs) (sent_events id ys)
  unfolding sent_events
  sent_events-append id [] ys = refl
  sent_events-append id (x ∷ xs) ys =
      ap (join (value_or_zero (lookup id x.bundle))) (sent_events-append id xs ys)
      ∙ sym
          (join_assoc (value_or_zero (lookup id x.bundle)) (sent_events id xs) (sent_events id ys))

  pub IsConsecutive-append :
      (i j k : ℕ) (xs ys : List (FrameBundle E))
      → IsConsecutive i xs j
      → IsConsecutive j ys k
      → IsConsecutive i (xs ++ ys) k
  IsConsecutive-append i j k [] ys h g = subst (λ q. IsConsecutive q ys k) (sym h) g
  IsConsecutive-append i j k (x ∷ xs) ys (e, h) g = (e, IsConsecutive-append (suc i) j k xs ys h g)

  -- From `b` to `c` the bundler received `new` and sent `sent`: all that it held and received is
  -- sent or held, in order, and each frame that is over was sent once, in order.
  pub record Carried (b c : Bundler E) (new : AllEvents E) (sent : List (FrameBundle E))
      : Type 0 where
    pub same_params : c.params ≡ b.params
    pub conserved : join (sent_events b.params.id sent) (held c) ≡ join (held b) new
    pub consecutive : IsConsecutive b.current_frame sent c.current_frame

  pub Carried-trans :
      (b c d : Bundler E) (new new' : AllEvents E) (sent sent' : List (FrameBundle E))
      → Carried b c new sent
      → Carried c d new' sent'
      → Carried b d (join new new') (sent ++ sent')
  Carried-trans b c d new new' sent sent' p q =
      let id = b.params.id in
      let same : sent_events c.params.id sent' ≡ sent_events id sent' =
        ap (λ x. sent_events x.id sent') p.same_params in
      record {
        same_params = q.same_params ∙ p.same_params;
        conserved =
            ap (λ x. join x (held d)) (sent_events-append id sent sent')
            ∙ join_assoc (sent_events id sent) (sent_events id sent') (held d)
            ∙ ap (λ x. join (sent_events id sent) (join x (held d))) (sym same)
            ∙ ap (join (sent_events id sent)) q.conserved
            ∙ sym (join_assoc (sent_events id sent) (held c) new')
            ∙ ap (λ x. join x new') p.conserved
            ∙ join_assoc (held b) new new';
        consecutive =
            IsConsecutive-append b.current_frame c.current_frame d.current_frame sent sent'
              p.consecutive q.consecutive;
      }
