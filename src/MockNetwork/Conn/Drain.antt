-- ===== src/MockNetwork/Conn/Drain.antt =====
-- How what is on its way over a mock connection can go on.
use pnf.Base.{
  ◌≡◌, ◌≢◌, inl, inr, refl, sym, ◌∙◌, ap, subst, ◌+◌, Bool, none, some, List, [], ◌∷◌, ◌++◌, arith,
  Option-cases,
}
use pnf.Base.Outcome.{ok, panic, Panic, ok-injective}
use pnf.Base.Slices.{All}
use pnf.TcpConn.{Bytes, Payload}
use pnf.MockNetwork.Conn.{
  ContainerCodec, Arrival, purge_mode, closed, ConnMock, purge_signal, send_container, routine,
  arrival, RouterMode, listening, conn_routine_purge-carried,
}
use pnf.MockNetwork.Conn.Passage.{
  Passage, Label, internal, receives, new_passage, Step, send_data, send_frame_bundle, purge_sender,
  purge_receiver, carry_near, carry_far, arrive_near, arrive_far, purge_near, purge_far, receive,
  purged_near, purged_far, Run, done, then_step,
}
use pnf.MockNetwork.Conn.Deliver.{
  IsContainer, count, flying, on_the_way, sent, received, sent-∷, Run-kept, nothing_lost,
}

module _ {A : Type 0} (P : A → Type 0) where
  All-remove : (xs : List A) (x : A) (ys : List A) → All P (xs ++ (x ∷ ys)) → P x × All P (xs ++ ys)
  All-remove [] x ys v = v
  All-remove (y ∷ xs) x ys v = let r = All-remove xs x ys v.1 in (r.0, (v.0, r.1))

module _ {E : Type 0} (codec : ContainerCodec (Payload E)) (law : IsContainer codec) where
  abbrev IsReadable : Bytes → Type 0
  IsReadable b = (q : Payload E) × (codec.decode b ≡ some q)

  -- All bytes that are on their way can be decoded.
  record Readable (l : Passage E) : Type 0 where
    sending : All IsReadable l.sender.sending
    near : All IsReadable l.near.carried
    far : All IsReadable l.far.carried

  sent_container-Readable :
      (q : Payload E) (c d : ConnMock E)
      → send_container codec q c ≡ ok d
      → All IsReadable c.sending
      → All IsReadable d.sending
  unfolding send_container
  sent_container-Readable q c d h v = elim (Option-cases (codec.encode q)) [
    | inl none_made ↦ absurd (
        let run : send_container codec q c ≡ panic Panic.encode_failed =
          rw (send_container, none_made) in
        cc)
    | inr (b, made) ↦
        let new : ConnMock E = record c { sending = b ∷ c.sending } in
        let run : send_container codec q c ≡ ok new = rw (send_container, made) in
        subst (λ k. All IsReadable k.sending) (ok-injective new d (sym run ∙ h))
          ((q, law.reads_back q b made), v)
  ]

  purged_sending :
      (b : Bool) (c d : ConnMock E)
      → routine codec (purge_signal b) c ≡ ok d
      → d.sending ≡ c.sending
  unfolding routine
  purged_sending b c d h =
      sym (ap (λ k. k.sending) (ok-injective (record c { mode = purge_mode c.mode b }) d h))

  Step-Readable : {x : Label E} {l m : Passage E} → Step codec l m x → Readable l → Readable m
  unfolding routine
  Step-Readable (send_data b c o h q) v = subst Readable (sym q) (record {
    sending = sent_container-Readable (record { content = b; bundle = none }) _ c h v.sending;
    near = v.near;
    far = v.far;
  })
  Step-Readable (send_frame_bundle b c o h q) v = subst Readable (sym q) (record {
    sending = sent_container-Readable (record { content = []; bundle = some b }) _ c h v.sending;
    near = v.near;
    far = v.far;
  })
  Step-Readable {l = l} (purge_sender b c h q) v = subst Readable (sym q) (record {
    sending = subst (All IsReadable) (sym (purged_sending b l.sender c h)) v.sending;
    near = v.near;
    far = v.far;
  })
  Step-Readable (purge_receiver b c h q) v =
      subst Readable (sym q) (record { sending = v.sending; near = v.near; far = v.far })
  Step-Readable (carry_near xs b ys a e q) v =
      let r = All-remove IsReadable xs b ys (subst (All IsReadable) e v.sending) in
      subst Readable (sym q) (record { sending = r.1; near = (r.0, v.near); far = v.far })
  Step-Readable (carry_far xs b ys a e q) v =
      let r = All-remove IsReadable xs b ys (subst (All IsReadable) e v.sending) in
      subst Readable (sym q) (record { sending = r.1; near = v.near; far = (r.0, v.far) })
  Step-Readable (arrive_near xs b ys c o e h q) v =
      let r = All-remove IsReadable xs b ys (subst (All IsReadable) e v.near) in
      subst Readable (sym q) (record { sending = v.sending; near = r.1; far = v.far })
  Step-Readable (arrive_far xs b ys c o e h q) v =
      let r = All-remove IsReadable xs b ys (subst (All IsReadable) e v.far) in
      subst Readable (sym q) (record { sending = v.sending; near = v.near; far = r.1 })
  Step-Readable (purge_near b h q) v =
      subst Readable (sym q) (record { sending = v.sending; near = v.near; far = v.far })
  Step-Readable (purge_far b h q) v =
      subst Readable (sym q) (record { sending = v.sending; near = v.near; far = v.far })
  Step-Readable {l = l} (purged_near s h q) v = subst Readable (sym q) (record {
    sending = v.sending;
    near = subst (All IsReadable) (conn_routine_purge-carried l.near s h) v.near;
    far = v.far;
  })
  Step-Readable {l = l} (purged_far s h q) v = subst Readable (sym q) (record {
    sending = v.sending;
    near = v.near;
    far = subst (All IsReadable) (conn_routine_purge-carried l.far s h) v.far;
  })
  Step-Readable (receive xs a ys o e q) v =
      subst Readable (sym q) (record { sending = v.sending; near = v.near; far = v.far })

  Run-Readable :
      {l m : Passage E} {xs : List (Label E)} → Run codec l xs m → Readable l → Readable m
  Run-Readable done v = v
  Run-Readable (then_step s r) v = Run-Readable r (Step-Readable s v)

  -- Steps in which nothing is sent.
  record Goes (l m : Passage E) : Type 0 where
    labels : List (Label E)
    run : Run codec l labels m
    quiet : (p : Arrival E → Bool) → sent p labels ≡ 0

  stays : (l : Passage E) → Goes l l
  unfolding sent
  stays l = record { labels = []; run = done; quiet = λ p. refl }

  one_more :
      (l m n : Passage E) (x : Label E)
      → ((p : Arrival E → Bool) → sent p (x ∷ []) ≡ 0)
      → Step codec l m x
      → Goes m n
      → Goes l n
  one_more l m n x q s g = record {
    labels = x ∷ g.labels;
    run = then_step s g.run;
    quiet = λ p. omega (arith, sent-∷ p x g.labels, q p, g.quiet p);
  }

  append_run :
      {l m n : Passage E} {xs ys : List (Label E)}
      → Run codec l xs m
      → Run codec m ys n
      → Run codec l (xs ++ ys) n
  append_run done r = r
  append_run (then_step s q) r = then_step s (append_run q r)

  -- a connection whose receiving end is not closed and where nothing waits but these
  abbrev left :
      ConnMock E
      → List Bytes
      → ConnMock E
      → List (Arrival E)
      → List Bytes
      → RouterMode
      → List Bytes
      → Passage E
  left c s d arrivals near mode far = record {
    sender = record c { sending = s };
    receiver = record d { arrivals = arrivals };
    near = record { mode = listening; carried = near };
    far = record { mode = mode; carried = far };
  }

  quiet_step : (p : Arrival E → Bool) → sent p (internal ∷ []) ≡ 0
  unfolding sent
  quiet_step p = refl

  quiet_receive : (a : Arrival E) (p : Arrival E → Bool) → sent p (receives a ∷ []) ≡ 0
  unfolding sent
  quiet_receive a p = refl

  module _ (c d : ConnMock E) (mode : RouterMode) (is_open : d.mode ≢ closed) where
    Empties : Passage E → Type 0
    Empties l = Goes l (left c [] d [] [] mode [])

    drain_arrivals : (a : List (Arrival E)) → Empties (left c [] d a [] mode [])
    unfolding Empties
    drain_arrivals [] = stays _
    drain_arrivals (x ∷ a) =
        one_more _ (left c [] d a [] mode []) _ (receives x) (quiet_receive x)
          (receive [] x a is_open refl refl) (drain_arrivals a)

    drain_far :
        (a : List (Arrival E)) (f : List Bytes)
        → All IsReadable f
        → Empties (left c [] d a [] mode f)
    unfolding Empties routine
    drain_far a [] v = drain_arrivals a
    drain_far a (b ∷ f) ((q, good), v) =
        one_more _ (left c [] d (arrival q ++ a) [] mode f) _ internal quiet_step
          (arrive_far [] b f (record d { arrivals = arrival q ++ a }) is_open refl
            (rw (routine, good)) refl)
          (drain_far (arrival q ++ a) f v)

    drain_near :
        (a : List (Arrival E)) (n f : List Bytes)
        → All IsReadable n
        → All IsReadable f
        → Empties (left c [] d a n mode f)
    unfolding Empties routine
    drain_near a [] f v w = drain_far a f w
    drain_near a (b ∷ n) f ((q, good), v) w =
        one_more _ (left c [] d (arrival q ++ a) n mode f) _ internal quiet_step
          (arrive_near [] b n (record d { arrivals = arrival q ++ a }) is_open refl
            (rw (routine, good)) refl)
          (drain_near (arrival q ++ a) n f v w)

    drain_sending :
        (s : List Bytes) (a : List (Arrival E)) (n f : List Bytes)
        → All IsReadable s
        → All IsReadable n
        → All IsReadable f
        → Empties (left c s d a n mode f)
    unfolding Empties
    drain_sending [] a n f u v w = drain_near a n f v w
    drain_sending (b ∷ s) a n f u v w =
        one_more _ (left c s d a (b ∷ n) mode f) _ internal quiet_step
          (carry_near [] b s refl refl refl) (drain_sending s a (b ∷ n) f u.1 (u.0, v) w)

  -- After any run of a new connection, if the receiving end is not closed and the `connRoutine` of the
  -- sending end is at its `select`, the routines and the receiver can go on, with nothing more sent, until all that was sent
  -- is received, each value but empty slices of data once: of the values that pass any test as many are
  -- received, before and after, as were sent.
  pub all_can_arrive :
      (m : Passage E) (xs : List (Label E))
      → Run codec new_passage xs m
      → m.receiver.mode ≢ closed
      → m.near.mode ≡ listening
      → (k : Passage E) × (ys : List (Label E)) × Run codec m ys k
        × ((p : Arrival E → Bool) → sent p ys ≡ 0)
        × ((p : Arrival E → Bool) → sent p xs ≡ received p xs + received p ys)
  unfolding on_the_way flying count Empties
  all_can_arrive m xs r is_open listens =
      let v = Run-Readable r (record { sending = tt; near = tt; far = tt }) in
      let end = left m.sender [] m.receiver [] [] m.far.mode [] in
      let start =
        left m.sender m.sender.sending m.receiver m.receiver.arrivals m.near.carried m.far.mode
          m.far.carried in
      let same : start ≡ m =
        ap (λ k. record m { near = record (m.near) { mode = k } }) (sym listens) in
      let goes : Goes m end =
        subst (λ l. Goes l end) same
          (drain_sending m.sender m.receiver m.far.mode is_open m.sender.sending m.receiver.arrivals
            m.near.carried m.far.carried v.sending v.near v.far) in
      (
        end,
        goes.labels,
        goes.run,
        goes.quiet,
        λ p. omega (
          arith,
          nothing_lost codec law p m xs r,
          Run-kept codec law p m end goes.labels goes.run,
          goes.quiet p,
        ),
      )
