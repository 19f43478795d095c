-- ===== src/MockNetwork/Conn/Deliver.antt =====
-- What a mock connection delivers.
use pnf.Base.{
  ◌≡◌, inl, inr, refl, sym, ◌∙◌, ap, subst, ℕ, ◌+◌, Bool, none, some, List, [], ◌∷◌, ◌++◌, arith,
  if◌then◌else◌, Option-cases,
}
use pnf.Base.Outcome.{ok, panic, Panic, ok-injective}
use pnf.TcpConn.{Bytes, Payload}
use pnf.MockNetwork.Conn.{
  ContainerCodec, Arrival, data_in, bundle_in, purge_mode, ConnMock, purge_signal, from_net,
  send_container, routine, arrival, conn_routine_purge-carried,
}
use pnf.MockNetwork.Conn.Passage.{
  Passage, Label, sends, internal, receives, new_passage, Step, send_data, send_frame_bundle,
  purge_sender, purge_receiver, carry_near, carry_far, arrive_near, arrive_far, purge_near,
  purge_far, purged_near, purged_far, receive, Run, done, then_step,
}

module _ {A : Type 0} (p : A → Bool) where
  -- how many entries pass a test
  unfoldable pub count : List A → ℕ
  count [] = 0
  count (x ∷ xs) = (if p x then 1 else 0) + count xs

  pub count-append : (xs ys : List A) → count (xs ++ ys) ≡ count xs + count ys
  unfolding count
  count-append [] ys = omega arith
  count-append (x ∷ xs) ys = omega (arith, count-append xs ys)

  pub count-remove :
      (xs : List A) (x : A) (ys : List A)
      → count (xs ++ (x ∷ ys)) ≡ (count (x ∷ []) + count (xs ++ ys))
  unfolding count
  count-remove [] x ys = omega arith
  count-remove (y ∷ xs) x ys = omega (arith, count-remove xs x ys)

-- What the code relies on of encoding/gob, for a whole value in a buffer of its own.
pub record IsContainer {P : Type 0} (codec : ContainerCodec P) : Type 0 where
  pub reads_back : (p : P) (b : Bytes) → codec.encode p ≡ some b → codec.decode b ≡ some p

module _ {E : Type 0} where
  -- A value that is sent. An empty slice of data arrives as nil, which is dropped.
  abbrev pub entry : Arrival E → List (Arrival E)
  entry (data_in []) = []
  entry (data_in (b ∷ bs)) = data_in (b ∷ bs) ∷ []
  entry (bundle_in b) = bundle_in b ∷ []

module _ {E : Type 0} (p : Arrival E → Bool) where
  unfoldable pub sent : List (Label E) → ℕ
  sent [] = 0
  sent (sends a ∷ xs) = count p (entry a) + sent xs
  sent (internal ∷ xs) = sent xs
  sent (receives a ∷ xs) = sent xs

  unfoldable pub received : List (Label E) → ℕ
  received [] = 0
  received (sends a ∷ xs) = received xs
  received (internal ∷ xs) = received xs
  received (receives a ∷ xs) = count p (a ∷ []) + received xs

  pub sent-∷ : (x : Label E) (xs : List (Label E)) → sent (x ∷ xs) ≡ sent (x ∷ []) + sent xs
  unfolding sent
  sent-∷ (sends a) xs = omega arith
  sent-∷ internal xs = omega arith
  sent-∷ (receives a) xs = omega arith

  received-∷ :
      (x : Label E) (xs : List (Label E)) → received (x ∷ xs) ≡ received (x ∷ []) + received xs
  unfolding received
  received-∷ (sends a) xs = omega arith
  received-∷ internal xs = omega arith
  received-∷ (receives a) xs = omega arith

module _ {E : Type 0} (codec : ContainerCodec (Payload E)) (law : IsContainer codec)
    (p : Arrival E → Bool) where
  -- what the bytes on their way will be
  unfoldable pub content : Bytes → List (Arrival E)
  content b = elim (codec.decode b) [ none ↦ [] | some q ↦ arrival q ]

  -- how many values on their way pass the test
  unfoldable pub flying : List Bytes → ℕ
  flying [] = 0
  flying (b ∷ bs) = count p (content b) + flying bs

  unfoldable pub on_the_way : Passage E → ℕ
  on_the_way l =
      (flying l.sender.sending + flying l.near.carried)
      + (flying l.far.carried + count p l.receiver.arrivals)

  flying-remove :
      (xs : List Bytes) (b : Bytes) (ys : List Bytes)
      → flying (xs ++ (b ∷ ys)) ≡ count p (content b) + flying (xs ++ ys)
  unfolding flying
  flying-remove [] b ys = refl
  flying-remove (x ∷ xs) b ys = omega (arith, flying-remove xs b ys)

  sent_container :
      (q : Payload E) (c d : ConnMock E)
      → send_container codec q c ≡ ok d
      → (flying d.sending ≡ count p (arrival q) + flying c.sending) × (d.arrivals ≡ c.arrivals)
  unfolding send_container flying content
  sent_container q c d h = elim (Option-cases (codec.encode q)) [
    | inl none_made ↦ absurd (
        let run : send_container codec q c ≡ panic Panic.encode_failed =
          rw (send_container, none_made) in
        cc)
    | inr (b, made) ↦
        let new : ConnMock E = record c { sending = b ∷ c.sending } in
        let run : send_container codec q c ≡ ok new = rw (send_container, made) in
        subst
          (λ k.
            (flying k.sending ≡ count p (arrival q) + flying c.sending) × (k.arrivals ≡ c.arrivals))
          (ok-injective new d (sym run ∙ h)) (rw (content, law.reads_back q b made), refl)
  ]

  arrived :
      (b : Bytes) (c d : ConnMock E)
      → routine codec (from_net b) c ≡ ok d
      → count p d.arrivals ≡ count p (content b) + count p c.arrivals
  unfolding routine content
  arrived b c d h = elim (Option-cases (codec.decode b)) [
    | inl bad ↦ absurd (
        let run : routine codec (from_net b) c ≡ panic Panic.decode_failed = rw (routine, bad) in
        cc)
    | inr (q, good) ↦
        let new : ConnMock E = record c { arrivals = arrival q ++ c.arrivals } in
        let run : routine codec (from_net b) c ≡ ok new = rw (routine, good) in
        subst (λ k. count p k.arrivals ≡ count p (content b) + count p c.arrivals)
          (ok-injective new d (sym run ∙ h))
          (rw (content, good) (count-append p (arrival q) c.arrivals))
  ]

  abbrev Kept : Label E → Passage E → Passage E → Type 0
  Kept x l m = sent p (x ∷ []) + on_the_way l ≡ received p (x ∷ []) + on_the_way m

  sent_entry :
      (a : Arrival E) (q : Payload E)
      → arrival q ≡ entry a
      → count p (entry a) ≡ count p (arrival q)
  sent_entry a q e = sym (ap (count p) e)

  data_entry :
      (b : Bytes) → arrival {E = E} (record { content = b; bundle = none }) ≡ entry (data_in b)
  unfolding arrival
  data_entry [] = refl
  data_entry (x ∷ b) = refl

  step_sends :
      (a : Arrival E) (q : Payload E) (l : Passage E) (c : ConnMock E)
      → arrival q ≡ entry a
      → send_container codec q l.sender ≡ ok c
      → Kept (sends a) l (record l { sender = c })
  unfolding on_the_way sent received
  step_sends a q l c e h = omega (arith, (sent_container q l.sender c h).0, sent_entry a q e)

  step_purges :
      (b : Bool) (c d : ConnMock E)
      → routine codec (purge_signal b) c ≡ ok d
      → (flying d.sending ≡ flying c.sending) × (count p d.arrivals ≡ count p c.arrivals)
  unfolding routine
  step_purges b c d h =
      let e = ok-injective (record c { mode = purge_mode c.mode b }) d h in
      (sym (ap (λ k. flying k.sending) e), sym (ap (λ k. count p k.arrivals) e))

  Step-Kept : (x : Label E) (l m : Passage E) → Step codec l m x → Kept x l m
  unfolding on_the_way sent received flying routine arrival
  Step-Kept _ l m (send_data b c o h q) =
      subst (Kept (sends (data_in b)) l) (sym q)
        (step_sends (data_in b) (record { content = b; bundle = none }) l c (data_entry b) h)
  Step-Kept _ l m (send_frame_bundle b c o h q) =
      subst (Kept (sends (bundle_in b)) l) (sym q)
        (step_sends (bundle_in b) (record { content = []; bundle = some b }) l c refl h)
  Step-Kept _ l m (purge_sender b c h q) =
      subst (Kept internal l) (sym q) (omega (arith, (step_purges b l.sender c h).0))
  Step-Kept _ l m (purge_receiver b c h q) =
      subst (Kept internal l) (sym q) (omega (arith, (step_purges b l.receiver c h).1))
  Step-Kept _ l m (carry_near xs b ys a e q) =
      subst (Kept internal l) (sym q) (omega (arith, ap flying e, flying-remove xs b ys))
  Step-Kept _ l m (carry_far xs b ys a e q) =
      subst (Kept internal l) (sym q) (omega (arith, ap flying e, flying-remove xs b ys))
  Step-Kept _ l m (arrive_near xs b ys c o e h q) =
      subst (Kept internal l) (sym q)
        (omega (arith, ap flying e, flying-remove xs b ys, arrived b l.receiver c h))
  Step-Kept _ l m (arrive_far xs b ys c o e h q) =
      subst (Kept internal l) (sym q)
        (omega (arith, ap flying e, flying-remove xs b ys, arrived b l.receiver c h))
  Step-Kept _ l m (purge_near b h q) = subst (Kept internal l) (sym q) (omega arith)
  Step-Kept _ l m (purge_far b h q) = subst (Kept internal l) (sym q) (omega arith)
  Step-Kept _ l m (purged_near r h q) =
      subst (Kept internal l) (sym q)
        (omega (arith, ap flying (conn_routine_purge-carried l.near r h)))
  Step-Kept _ l m (purged_far r h q) =
      subst (Kept internal l) (sym q)
        (omega (arith, ap flying (conn_routine_purge-carried l.far r h)))
  Step-Kept _ l m (receive xs a ys o e q) =
      subst (Kept (receives a) l) (sym q) (omega (arith, ap (count p) e, count-remove p xs a ys))

  pub Run-kept :
      (l m : Passage E) (xs : List (Label E))
      → Run codec l xs m
      → sent p xs + on_the_way l ≡ received p xs + on_the_way m
  unfolding sent received
  Run-kept l _ _ done = refl
  Run-kept l m _ (then_step {m = k} {x = x} {xs = xs} s r) =
      omega (arith, sent-∷ p x xs, received-∷ p x xs, Step-Kept x l k s, Run-kept k m xs r)

  -- In every run of a new connection, whatever is purged or closed on the way, each value that was
  -- sent, but for empty slices of data, has been received once or is on its way once, and nothing else
  -- is: of the values that pass any given test there are as many.
  pub nothing_lost :
      (m : Passage E) (xs : List (Label E))
      → Run codec new_passage xs m
      → sent p xs ≡ received p xs + on_the_way m
  unfolding on_the_way flying count
  nothing_lost m xs r = omega (arith, Run-kept new_passage m xs r)
