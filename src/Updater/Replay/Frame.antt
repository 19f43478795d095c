-- ===== src/Updater/Replay/Frame.antt =====
-- `rethink_frame` computes the specified frame.
use pnf.Base.{
  ◌≡◌, refl, sym, ◌∙◌, ap, ℕ, Bool, true, none, some, List, [], ◌∷◌, ◌++◌, arith, Bool-cases, ◌≢◌,
  inl, inr,
}
use mathlib.Core.List.{append-nil, append_assoc}
use pnf.Base.Outcome.{ok}
use pnf.Base.GoMap.{find, put, without, find-put, find-without, entries, is_some}
use pnf.Engine
use pnf.Engine.{EngineEvent, EngineInfo, engine_joined, engine_dropped, copy_entries, copy}
use pnf.Event.{AllEvents, EventBundle, each_game, each_engine}
use pnf.Event.Keys.{IsKeyed}
use pnf.Event.Visits.{in_order, run, each-in_order}
use pnf.Game.{GameOps, IsLawful, FrameData}
use pnf.Updater.Advance.{apply_engine_events, apply_events, game_events, rethink_frame}
use pnf.Updater.Replay.{World, Shows, change_engines, all_changes, play, all_plays, next_world}

module _ {V : Type 0} where
  -- A map has each key once.
  abbrev pub IsUnique : List (ℕ × V) → Type 0
  IsUnique [] = Unit
  IsUnique ((k, v) ∷ es) = (find k es ≡ none) × IsUnique es

  pub put-IsUnique : (k : ℕ) (v : V) (es : List (ℕ × V)) → IsUnique es → IsUnique (put k v es)
  unfolding put find
  put-IsUnique k v [] u = (refl, tt)
  put-IsUnique k v ((j, w) ∷ es) u = ground (arith, find-put k j v es, put-IsUnique k v es u.1)

  pub without-IsUnique : (k : ℕ) (es : List (ℕ × V)) → IsUnique es → IsUnique (without k es)
  unfolding without find
  without-IsUnique k [] u = tt
  without-IsUnique k ((j, w) ∷ es) u =
      ground (arith, find-without k j es, without-IsUnique k es u.1)

  put_new :
      (k : ℕ) (v : V) (es : List (ℕ × V)) → find k es ≡ none → put k v es ≡ es ++ ((k, v) ∷ [])
  unfolding put find
  put_new k v [] h = refl
  put_new k v ((j, w) ∷ es) h = ground (arith, put_new k v es)

first_new :
    (done : List (ℕ × Bool)) (k : ℕ) (v : Bool) (es : List (ℕ × Bool))
    → (find k ((k, v) ∷ es) ≢ none → find k done ≡ none)
    → find k done ≡ none
unfolding find
first_new done k v es d = ground arith

not_copied :
    (done : List (ℕ × Bool)) (k : ℕ) (v : Bool) (es : List (ℕ × Bool)) (j : ℕ)
    → find k es ≡ none
    → (find j ((k, v) ∷ es) ≢ none → find j done ≡ none)
    → find j es ≢ none
    → find j (put k v done) ≡ none
unfolding find
not_copied done k v es j u d h = ground (arith, find-put k j v done)

-- `EngineInfo.Copy` makes the same map.
copy_entries_lem :
    (done es : List (ℕ × Bool))
    → IsUnique es
    → ((k : ℕ) → find k es ≢ none → find k done ≡ none)
    → copy_entries done es ≡ done ++ es
unfolding copy_entries
copy_entries_lem done [] u d = sym (append-nil done)
copy_entries_lem done ((k, v) ∷ es) u d =
    copy_entries_lem (put k v done) es u.1 (λ j. not_copied done k v es j u.0 (d j))
    ∙ ap (λ l. l ++ es) (put_new k v done (first_new done k v es (d k)))
    ∙ append_assoc done ((k, v) ∷ []) es

pub copy_lem :
    (info : EngineInfo) (es : List (ℕ × Bool))
    → info.engines ≡ some es
    → IsUnique es
    → copy info ≡ record { engines = some es }
unfolding copy
copy_lem info es e u =
    rw e (
      ap (λ l. record { engines = some l }) (copy_entries_lem [] es u (λ k h. unfold find in refl)))

apply_engine_events_lem :
    (events : List EngineEvent) (es : List (ℕ × Bool))
    → apply_engine_events events (record { engines = some es })
      ≡ ok (record { engines = some (change_engines events es) })
unfolding apply_engine_events change_engines Engine.apply
apply_engine_events_lem [] es = refl
apply_engine_events_lem (engine_joined id ∷ events) es =
    apply_engine_events_lem events (put id true es)
apply_engine_events_lem (engine_dropped id ∷ events) es =
    apply_engine_events_lem events (without id es)

run_changes :
    {E : Type 0} (all : List (ℕ × AllEvents E)) (es : List (ℕ × Bool))
    → run (λ id a. apply_engine_events a.engine) all (record { engines = some es })
      ≡ ok (record { engines = some (all_changes all es) })
unfolding run all_changes
run_changes [] es = refl
run_changes ((id, a) ∷ rest) es =
    rw (apply_engine_events_lem a.engine es) (run_changes rest (change_engines a.engine es))

module _ {G E : Type 0} (ops : GameOps G E) where
  apply_events_lem : (events : List E) (g : G) → apply_events ops events g ≡ play ops.apply events g
  unfolding apply_events play
  apply_events_lem [] g = refl
  apply_events_lem (e ∷ es) g = apply_events_lem es (ops.apply e g)

  run_plays :
      (members : List (ℕ × Bool)) (all : List (ℕ × AllEvents E)) (g : G)
      → run (λ id a. game_events ops (record { engines = some members }) id a.game) all g
        ≡ ok (all_plays ops.apply members all g)
  unfolding run all_plays
  run_plays members [] g = refl
  run_plays members ((id, a) ∷ rest) g = elim (Bool-cases (is_some (find id members))) [
    | inl e ↦ rw (e, apply_events_lem a.game g) (run_plays members rest (play ops.apply a.game g))
    | inr e ↦ rw e (run_plays members rest g)
  ]

  each_engine_lem :
      (bundle : EventBundle E) (frame : ℕ) (es : List (ℕ × Bool))
      → IsKeyed (entries bundle)
      → each_engine bundle frame (λ id. apply_engine_events) (record { engines = some es })
        ≡ ok (record { engines = some (all_changes (in_order bundle) es) })
  unfolding each_engine
  each_engine_lem bundle frame es v =
      each-in_order bundle frame (λ id a. apply_engine_events a.engine)
        (record { engines = some es }) v
      ∙ run_changes (in_order bundle) es

  each_game_lem :
      (bundle : EventBundle E) (frame : ℕ) (members : List (ℕ × Bool)) (g : G)
      → IsKeyed (entries bundle)
      → each_game bundle frame (game_events ops (record { engines = some members })) g
        ≡ ok (all_plays ops.apply members (in_order bundle) g)
  unfolding each_game
  each_game_lem bundle frame members g v =
      each-in_order bundle frame
        (λ id a. game_events ops (record { engines = some members }) id a.game) g v
      ∙ run_plays members (in_order bundle) g

  -- For a game whose copies and overwriting are lawful: from a slot that shows a world and one that
  -- has a game and a bundle with each engine once, `rethink_frame` makes the slot that shows the
  -- next world for that bundle, and leaves the bundle as it was.
  pub rethink_frame-Shows :
      IsLawful ops
      → (frame : ℕ) (prev d : FrameData G E) (world : World G) (g : G) → Shows prev world
      → IsUnique world.engines
      → d.game ≡ some g
      → IsKeyed (entries d.bundle)
      → (new : FrameData G E) × (rethink_frame ops frame prev d ≡ ok new)
        × Shows new (next_world ops d.bundle world)
        × (new.bundle ≡ d.bundle)
  unfolding rethink_frame next_world
  rethink_frame-Shows law frame prev d world g s u h v = (
    record d {
      info = record { engines = some members };
      game = some (ops.think (all_plays ops.apply members (in_order d.bundle) world.game));
    },
    rw (
      h,
      s.game_is,
      copy_lem prev.info world.engines s.info_is u,
      each_engine_lem d.bundle frame world.engines v,
      law.overwrite_lem g world.game,
      each_game_lem d.bundle frame members world.game v,
    ),
    record { info_is = refl; game_is = refl },
    refl,
  )
    where
      members : List (ℕ × Bool)
      members = all_changes (in_order d.bundle) world.engines

change_engines-IsUnique :
    (events : List EngineEvent) (es : List (ℕ × Bool))
    → IsUnique es
    → IsUnique (change_engines events es)
unfolding change_engines
change_engines-IsUnique [] es u = u
change_engines-IsUnique (engine_joined id ∷ events) es u =
    change_engines-IsUnique events (put id true es) (put-IsUnique id true es u)
change_engines-IsUnique (engine_dropped id ∷ events) es u =
    change_engines-IsUnique events (without id es) (without-IsUnique id es u)

all_changes-IsUnique :
    {E : Type 0} (all : List (ℕ × AllEvents E)) (es : List (ℕ × Bool))
    → IsUnique es
    → IsUnique (all_changes all es)
unfolding all_changes
all_changes-IsUnique [] es u = u
all_changes-IsUnique ((id, a) ∷ rest) es u =
    all_changes-IsUnique rest (change_engines a.engine es) (change_engines-IsUnique a.engine es u)

pub next_world-IsUnique :
    {G E : Type 0} (ops : GameOps G E) (bundle : EventBundle E) (world : World G)
    → IsUnique world.engines
    → IsUnique (next_world ops bundle world).engines
unfolding next_world
next_world-IsUnique ops bundle world u = all_changes-IsUnique (in_order bundle) world.engines u
