-- ===== src/DataWindow/Slots.antt =====
-- A `DataWindow` as a partial map from frames: what `Get`, `Set` and `Advance` do to it.
use pnf.Base.{
  ◌⊎◌, ℕ, suc, ◌+◌, ◌-◌, ◌%◌, ◌^◌, ◌≤◌, ◌<◌, ◌≡◌, refl, ◌||◌, inl, inr, Option, none, some, length,
  get_elem?, set, length-set, get_elem?-set_self, get_elem?-set_ne, get_elem?-of_lt, ltb, leb, ◌==◌,
  if◌then◌else◌, arith, ap, ◌∙◌, Bool-cases, ==→eq, ==→ne, ne→==,
}
use native.Mathlib.Nat.{mod-lt, mod-eq_of_lt, mod-eq-sub-mod, mod-add-mod}
use native.Mathlib.Decide.{dec_lt}
use pnf.Base.Words.{add32_lem, add64_lem, rem64_lem, lt64}
use pnf.Base.Outcome.{Outcome, ok, panic, outside_window, or_panic}
use pnf.DataWindow.{DataWindow, get, put, advance}
use pnf.DataWindow.Bounds.{IsValid, pos_to_index-inside, pos_to_index-outside}

-- Positions less than a round apart lie in different slots.
mod_add_injective : (s a b n : ℕ) → s < n → a < n → b < n → (s + a) % n ≡ (s + b) % n → a ≡ b
mod_add_injective s a b n hs ha hb e = elim (dec_lt (s + a) n) [
  | yes p ↦ elim (dec_lt (s + b) n) [
    | yes q ↦ omega (arith, mod-eq_of_lt p, mod-eq_of_lt q)
    | no q ↦ omega (
      arith,
      mod-eq_of_lt p,
      mod-eq-sub-mod {n = s + b} {m = n} (omega arith),
      mod-eq_of_lt {n = s + b - n} {m = n} (omega arith),
    )
  ]
  | no p ↦ elim (dec_lt (s + b) n) [
    | yes q ↦ omega (
      arith,
      mod-eq_of_lt q,
      mod-eq-sub-mod {n = s + a} {m = n} (omega arith),
      mod-eq_of_lt {n = s + a - n} {m = n} (omega arith),
    )
    | no q ↦ omega (
      arith,
      mod-eq-sub-mod {n = s + a} {m = n} (omega arith),
      mod-eq_of_lt {n = s + a - n} {m = n} (omega arith),
      mod-eq-sub-mod {n = s + b} {m = n} (omega arith),
      mod-eq_of_lt {n = s + b - n} {m = n} (omega arith),
    )
  ]
]

module _ {ℓ} {A : Type ℓ} where
  abbrev pub index : DataWindow A → ℕ → ℕ
  index w pos = (w.start + (pos - w.first)) % length w.slots

  abbrev pub Inside : DataWindow A → ℕ → Type 0
  Inside w pos = (w.first ≤ pos) × (pos < w.first + length w.slots)

  -- the value at a frame, if the window has the frame
  pub peek : DataWindow A → ℕ → Option A
  peek w pos =
      if ltb pos w.first || leb (w.first + length w.slots) pos
      then none
      else get_elem? w.slots (index w pos)

  abbrev pub found : Option A → Outcome A
  found = or_panic outside_window

  pub peek-Inside :
      (w : DataWindow A) (pos : ℕ) → Inside w pos → peek w pos ≡ get_elem? w.slots (index w pos)
  unfolding peek
  peek-Inside w pos h = ground arith

  pub peek-outside :
      (w : DataWindow A) (pos : ℕ)
      → (pos < w.first) ⊎ (w.first + length w.slots ≤ pos)
      → peek w pos ≡ none
  unfolding peek
  peek-outside w pos h = ground arith

  pub Inside-cases :
      (w : DataWindow A) (pos : ℕ)
      → Inside w pos ⊎ ((pos < w.first) ⊎ (w.first + length w.slots ≤ pos))
  Inside-cases w pos = elim (dec_lt pos w.first) [
    | yes p ↦ inr (inl p)
    | no p ↦ elim (dec_lt pos (w.first + length w.slots)) [
      | yes q ↦ inl (omega arith, q)
      | no q ↦ inr (inr (omega arith))
    ]
  ]

  index-lt : (w : DataWindow A) (pos : ℕ) → IsValid w → index w pos < length w.slots
  index-lt w pos v = mod-lt _ v.some_slot

  -- Every frame of a valid window has a value.
  pub peek-some :
      (w : DataWindow A) (pos : ℕ) → IsValid w → Inside w pos → (a : A) × (peek w pos ≡ some a)
  peek-some w pos v h =
      rw (peek-Inside w pos h) (get_elem?-of_lt w.slots (index w pos) (index-lt w pos v))

  -- On a valid window `Get` returns the value at every frame of the window, and panics at every
  -- other.
  pub get-peek :
      (w : DataWindow A) (pos : ℕ) → IsValid w → pos < 2 ^ 32 → get w pos ≡ found (peek w pos)
  unfolding get
  get-peek w pos v b = elim (Inside-cases w pos) [
    | inl h ↦
        let (a, e) = get_elem?-of_lt w.slots (index w pos) (index-lt w pos v) in
        rw (pos_to_index-inside w v pos h.0 h.1, peek-Inside w pos h, e)
    | inr h ↦ rw (pos_to_index-outside w v pos b h, peek-outside w pos h)
  ]

  -- what `Set` leaves behind
  pub record Written (w : DataWindow A) (pos : ℕ) (val : A) (u : DataWindow A) : Type ℓ where
    pub valid : IsValid u
    pub same_first : u.first ≡ w.first
    pub same_length : length u.slots ≡ length w.slots
    pub at : (q : ℕ) → peek u q ≡ (if pos == q then some val else peek w q)

  get_elem?-set-index :
      (w : DataWindow A) (pos : ℕ) (val : A) (q : ℕ)
      → IsValid w
      → Inside w pos
      → Inside w q
      → get_elem? (set w.slots (index w pos) val) (index w q)
        ≡ (if pos == q then some val else get_elem? w.slots (index w q))
  get_elem?-set-index w pos val q v h k = elim (Bool-cases (pos == q)) [
    | inl e ↦
        rw (e, ← ==→eq pos q e) (get_elem?-set_self w.slots (index w pos) val (index-lt w pos v))
    | inr e ↦ rw e (
        get_elem?-set_ne w.slots (index w pos) (index w q) val (λ same. ==→ne pos q e (
          apart (
            mod_add_injective w.start (pos - w.first) (q - w.first) (length w.slots) v.start_in
              (omega arith) (omega arith) same))))
  ]
    where
      apart : pos - w.first ≡ q - w.first → pos ≡ q
      apart e = omega arith

  put-peek :
      (w : DataWindow A) (pos : ℕ) (val : A) (q : ℕ)
      → IsValid w
      → Inside w pos
      → peek (record w { slots = set w.slots (index w pos) val }) q
        ≡ (if pos == q then some val else peek w q)
  put-peek w pos val q v h = elim (Inside-cases w q) [
    | inl k ↦
        rw (peek-Inside u q (omega (arith, same)), same, peek-Inside w q k)
          (get_elem?-set-index w pos val q v h k)
    | inr k ↦
        rw (ne→== pos q (omega arith), peek-outside w q k, peek-outside u q (omega (arith, same)))
  ]
    where
      u : DataWindow A
      u = record w { slots = set w.slots (index w pos) val }

      same : length (set w.slots (index w pos) val) ≡ length w.slots
      same = length-set w.slots (index w pos) val

  -- In the window, `Set` returns; it changes the value at its frame and at no other, and the window
  -- stays valid and of the same frames.
  pub put-Written :
      (w : DataWindow A) (pos : ℕ) (val : A)
      → IsValid w
      → Inside w pos
      → (u : DataWindow A) × (put w pos val ≡ ok u) × Written w pos val u
  unfolding put lt64
  put-Written w pos val v h = (
    record w { slots = set w.slots (index w pos) val },
    rw (pos_to_index-inside w v pos h.0 h.1) (ground (arith, index-lt w pos v)),
    record {
      valid = omega (arith, length-set w.slots (index w pos) val);
      same_first = refl;
      same_length = length-set w.slots (index w pos) val;
      at = λ q. put-peek w pos val q v h;
    },
  )

  pub put_outside :
      (w : DataWindow A) (pos : ℕ) (val : A)
      → IsValid w
      → pos < 2 ^ 32
      → (pos < w.first) ⊎ (w.first + length w.slots ≤ pos)
      → put w pos val ≡ panic outside_window
  unfolding put
  put_outside w pos val v b h = rw (pos_to_index-outside w v pos b h)

  -- what `Advance` leaves behind: the slot of the frame that is dropped serves the frame that is new
  pub record Advanced (w u : DataWindow A) : Type ℓ where
    pub valid : IsValid u
    pub next_first : u.first ≡ suc w.first
    pub same_length : length u.slots ≡ length w.slots
    pub reused : peek u (w.first + length w.slots) ≡ peek w w.first
    pub kept : (q : ℕ) → w.first < q → q < w.first + length w.slots → peek u q ≡ peek w q

  -- `Advance` moves a valid window on by one frame, if no frame number wraps. The frames that stay
  -- keep their values, and the new last frame has the slot of the one that is dropped.
  pub advance-Advanced :
      (w : DataWindow A)
      → IsValid w
      → w.first + length w.slots + 1 < 2 ^ 31
      → (u : DataWindow A) × (advance w ≡ ok u) × Advanced w u
  unfolding advance
  advance-Advanced w v b = (
    u,
    rw (
      ne→== (length w.slots) 0 (omega arith),
      add32_lem w.first 1 (omega arith),
      add64_lem w.start 1 (omega arith),
      rem64_lem (w.start + 1) (length w.slots) (omega arith) (omega arith),
    ),
    record {
      valid = u-IsValid;
      next_first = omega arith;
      same_length = refl;
      reused =
          rw
            (
              peek-Inside u (w.first + length w.slots) (omega arith),
              peek-Inside w w.first (omega arith),
            )
            (ap (get_elem? w.slots) wrapped);
      kept = λ q h k.
          rw (peek-Inside u q (omega arith), peek-Inside w q (omega arith))
            (ap (get_elem? w.slots) (shifted q h));
    },
  )
    where
      u : DataWindow A
      u = record w { first = w.first + 1; start = (w.start + 1) % length w.slots }

      u-IsValid : IsValid u
      u-IsValid = record {
        some_slot = v.some_slot;
        start_in = mod-lt (w.start + 1) v.some_slot;
        no_wrap = omega arith;
      }

      wrapped : index u (w.first + length w.slots) ≡ index w w.first
      wrapped = rw mod-add-mod (
          mod-eq-sub-mod {n = w.start + 1 + (w.first + length w.slots - (w.first + 1))}
            {m = length w.slots} (omega arith)
          ∙ ap (λ k. k % length w.slots) (omega arith))

      shifted : (q : ℕ) → w.first < q → index u q ≡ index w q
      shifted q h = rw mod-add-mod (ap (λ k. k % length w.slots) (omega arith))
