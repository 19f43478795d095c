-- ===== src/TcpConn/Traffic.antt =====
-- The data and the bundles among what is sent, and what a run sends and gives.
use pnf.Base.{◌≡◌, refl, sym, ◌∙◌, ap, Option, none, some, List, [], ◌∷◌, ◌++◌}
use mathlib.Core.List.{append_assoc}
use pnf.Event.{FrameBundle}
use pnf.TcpConn.{Bytes, Payload}
use pnf.TcpConn.Stream.{Label, sends, internal, gives_data, gives_bundle}

module _ {E : Type 0} where
  unfoldable pub data_if : Option (FrameBundle E) → Bytes → List Bytes
  data_if none b = b ∷ []
  data_if (some x) b = []

  unfoldable pub bundle_if : Option (FrameBundle E) → List (FrameBundle E)
  bundle_if none = []
  bundle_if (some x) = x ∷ []

  -- the data and the bundles among some payloads
  unfoldable pub data_of : List (Payload E) → List Bytes
  unfolding data_if
  data_of [] = []
  data_of (p ∷ ps) = data_if p.bundle p.content ++ data_of ps

  unfoldable pub bundles_of : List (Payload E) → List (FrameBundle E)
  unfolding bundle_if
  bundles_of [] = []
  bundles_of (p ∷ ps) = bundle_if p.bundle ++ bundles_of ps

  abbrev pub sent_by : Label E → List (Payload E)
  sent_by (sends p) = p ∷ []
  sent_by internal = []
  sent_by (gives_data b) = []
  sent_by (gives_bundle b) = []

  abbrev pub data_by : Label E → List Bytes
  data_by (sends p) = []
  data_by internal = []
  data_by (gives_data b) = b ∷ []
  data_by (gives_bundle b) = []

  abbrev pub bundles_by : Label E → List (FrameBundle E)
  bundles_by (sends p) = []
  bundles_by internal = []
  bundles_by (gives_data b) = []
  bundles_by (gives_bundle b) = b ∷ []

  -- what one program sent in a run, and what the other received
  unfoldable pub sent : List (Label E) → List (Payload E)
  sent [] = []
  sent (x ∷ xs) = sent_by x ++ sent xs

  unfoldable pub received_data : List (Label E) → List Bytes
  received_data [] = []
  received_data (x ∷ xs) = data_by x ++ received_data xs

  unfoldable pub received_bundles : List (Label E) → List (FrameBundle E)
  received_bundles [] = []
  received_bundles (x ∷ xs) = bundles_by x ++ received_bundles xs

  pub data_of-append : (ps qs : List (Payload E)) → data_of (ps ++ qs) ≡ data_of ps ++ data_of qs
  unfolding data_of
  data_of-append [] qs = refl
  data_of-append (p ∷ ps) qs =
      ap (λ l. data_if p.bundle p.content ++ l) (data_of-append ps qs)
      ∙ sym (append_assoc (data_if p.bundle p.content) (data_of ps) (data_of qs))

  pub bundles_of-append :
      (ps qs : List (Payload E)) → bundles_of (ps ++ qs) ≡ bundles_of ps ++ bundles_of qs
  unfolding bundles_of
  bundles_of-append [] qs = refl
  bundles_of-append (p ∷ ps) qs =
      ap (λ l. bundle_if p.bundle ++ l) (bundles_of-append ps qs)
      ∙ sym (append_assoc (bundle_if p.bundle) (bundles_of ps) (bundles_of qs))
