-- ===== src/TcpConn/Waiting.antt =====
-- What waits in an inbox, in the order in which it will be given.
use pnf.Base.{◌≡◌, sym, ◌∙◌, ap, subst, none, some, List, [], ◌∷◌, ◌++◌, Bool-cases, inl, inr}
use mathlib.Core.List.{append_assoc}
use mathlib.Core.Option.{some-injective}
use pnf.TcpConn.{Inbox, has_room, put_in, take_in, pass_on, give, enqueue, dequeue}

module _ {A : Type 0} where
  abbrev pub held : Inbox A → List A
  held i = i.to_pnf ++ (i.queue ++ i.from_net)

  pub put_in-held : (x : A) (i j : Inbox A) → put_in x i ≡ some j → held j ≡ held i ++ (x ∷ [])
  unfolding put_in
  put_in-held x i j h = elim (Bool-cases (has_room i.from_net)) [
    | inl room ↦
        let new : Inbox A = record i { from_net = i.from_net ++ (x ∷ []) } in
        let same : new ≡ j = some-injective new j (sym (rw (put_in, room)) ∙ h) in
        subst (λ k. held k ≡ held i ++ (x ∷ [])) same
          (ap (λ l. i.to_pnf ++ l) (sym (append_assoc i.queue i.from_net (x ∷ [])))
            ∙ sym (append_assoc i.to_pnf (i.queue ++ i.from_net) (x ∷ [])))
    | inr full ↦ absurd (let blocked : put_in x i ≡ none = rw (put_in, full) in cc)
  ]

  take :
      (t q f : List A) (j : Inbox A)
      → take_in (record { from_net = f; queue = q; to_pnf = t }) ≡ some j
      → held j ≡ t ++ (q ++ f)
  unfolding take_in dequeue enqueue
  take t q [] j h = cc
  take t q (x ∷ f) j h =
      subst (λ k. held k ≡ t ++ (q ++ (x ∷ f)))
        (some-injective (record { from_net = f; queue = q ++ (x ∷ []); to_pnf = t }) j h)
        (ap (λ l. t ++ l) (append_assoc q (x ∷ []) f))

  pub take_in-held : (i j : Inbox A) → take_in i ≡ some j → held j ≡ held i
  take_in-held i j h = take i.to_pnf i.queue i.from_net j h

  pass :
      (t q f : List A) (j : Inbox A)
      → pass_on (record { from_net = f; queue = q; to_pnf = t }) ≡ some j
      → held j ≡ t ++ (q ++ f)
  unfolding pass_on dequeue
  pass t [] f j h = elim (Bool-cases (has_room t)) [
    | inl room ↦ absurd (
        let blocked : pass_on (record { from_net = f; queue = []; to_pnf = t }) ≡ none =
          rw (pass_on, room) in
        cc)
    | inr full ↦ absurd (
        let blocked : pass_on (record { from_net = f; queue = []; to_pnf = t }) ≡ none =
          rw (pass_on, full) in
        cc)
  ]
  pass t (x ∷ q) f j h = elim (Bool-cases (has_room t)) [
    | inl room ↦
        let new : Inbox A = record { from_net = f; queue = q; to_pnf = t ++ (x ∷ []) } in
        let same : new ≡ j = some-injective new j (sym (rw (pass_on, room)) ∙ h) in
        subst (λ k. held k ≡ t ++ ((x ∷ q) ++ f)) same (append_assoc t (x ∷ []) (q ++ f))
    | inr full ↦ absurd (
        let blocked : pass_on (record { from_net = f; queue = x ∷ q; to_pnf = t }) ≡ none =
          rw (pass_on, full) in
        cc)
  ]

  pub pass_on-held : (i j : Inbox A) → pass_on i ≡ some j → held j ≡ held i
  pass_on-held i j h = pass i.to_pnf i.queue i.from_net j h

  given :
      (t q f : List A) (x : A) (j : Inbox A)
      → give (record { from_net = f; queue = q; to_pnf = t }) ≡ some (x, j)
      → t ++ (q ++ f) ≡ x ∷ held j
  unfolding give dequeue
  given [] q f x j h = cc
  given (y ∷ t) q f x j h =
      ap (λ r. r.0 ∷ held r.1)
        (some-injective (y, record { from_net = f; queue = q; to_pnf = t }) (x, j) h)

  pub give-held : (x : A) (i j : Inbox A) → give i ≡ some (x, j) → held i ≡ x ∷ held j
  give-held x i j h = given i.to_pnf i.queue i.from_net x j h
