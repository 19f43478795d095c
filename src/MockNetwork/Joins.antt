-- ===== src/MockNetwork/Joins.antt =====
-- What `Join` does while it holds the mutex.
use pnf.Base.{
  inl, inr, ◌≡◌, ◌≢◌, refl, sym, ◌∙◌, ap, subst, ℕ, suc, ◌+◌, true, false, Option, none, some, List,
  [], ◌∷◌, get_elem?, arith, ==→eq, ==→ne, ◌==◌, Bool-cases, Option-cases,
}
use mathlib.Core.Option.{some-injective}
use pnf.Base.Outcome.{Outcome, ok, panic, nil_pointer, ok-injective}
use pnf.Base.Slices.{All}
use pnf.TcpConn.{Bytes}
use pnf.MockNetwork.{
  NetworkMock, Joined, joined, join_error, already_connected, not_found, refused, is_connected,
  index_of, make_conn_mock_pair, join_locked, join_host,
}
use pnf.MockNetwork.Registry.{connected, Paired, make_conn_mock_pair-Paired}

-- the search for a host: it is not in the list, or it is at the index that is found
pub index_of-none : (id i : ℕ) (xs : List ℕ) → index_of id i xs ≡ none → All (λ x. x ≢ id) xs
unfolding index_of
index_of-none id i [] h = tt
index_of-none id i (x ∷ xs) h = elim (Bool-cases (x == id)) [
  | inl e ↦ absurd (let found : index_of id i (x ∷ xs) ≡ some i = rw (index_of, e) refl in cc)
  | inr e ↦
      let later : index_of id i (x ∷ xs) ≡ index_of id (suc i) xs = rw (index_of, e) refl in
      ((λ k. ==→ne x id e k), index_of-none id (suc i) xs (sym later ∙ h))
]

pub index_of-some :
    (id i k : ℕ) (xs : List ℕ)
    → index_of id i xs ≡ some k
    → (j : ℕ) × (k ≡ i + j) × (get_elem? xs j ≡ some id)
unfolding index_of
index_of-some id i k [] h = cc
index_of-some id i k (x ∷ xs) h = elim (Bool-cases (x == id)) [
  | inl e ↦
      let found : index_of id i (x ∷ xs) ≡ some i = rw (index_of, e) refl in
      let same : some i ≡ some k = sym found ∙ h in
      (0, omega (arith, some-injective i k same), ap some (==→eq x id e))
  | inr e ↦
      let later : index_of id i (x ∷ xs) ≡ index_of id (suc i) xs = rw (index_of, e) refl in
      let (j, at, found) = index_of-some id (suc i) k xs (sym later ∙ h) in
      (suc j, omega (arith, at), found)
]

-- What the mutex lets a join do, by its answer: a host that is not listed is not found, one that has a
-- connection to the caller says so, and else its function decides, and if that has no objection, a
-- pair is added. Nothing else changes anything.
pub data JoinDone (me remote : ℕ) (bytes : Bytes) (net m : NetworkMock) : Joined → Type 0 where
  absent :
      All (λ x. x ≢ remote) net.hosts
      → m ≡ net
      → JoinDone me remote bytes net m (join_error not_found)
  known :
      connected net remote me ≡ true
      → m ≡ net
      → JoinDone me remote bytes net m (join_error already_connected)
  refuses :
      (f : Bytes → Option Bytes) (e : Bytes)
      → (net.store remote).join ≡ some f
      → f bytes ≡ some e
      → m ≡ net
      → JoinDone me remote bytes net m (join_error (refused e))
  accepts :
      (f : Bytes → Option Bytes)
      → (net.store remote).join ≡ some f
      → f bytes ≡ none
      → connected net remote me ≡ false
      → Paired me remote net m
      → JoinDone me remote bytes net m (joined net.next_pair_id)

module _ (me remote : ℕ) (bytes : Bytes) (net m : NetworkMock) (r : Joined) where
  -- the answer of one branch
  answer :
      (n : NetworkMock) (s : Joined) (o : Outcome (NetworkMock × Joined))
      → o ≡ ok (n, s)
      → o ≡ ok (m, r)
      → JoinDone me remote bytes net n s
      → JoinDone me remote bytes net m r
  answer n s o e h d =
      subst (λ (x : NetworkMock × Joined). JoinDone me remote bytes net x.0 x.1)
        (ok-injective (n, s) (m, r) (sym e ∙ h)) d

  pair_number : (make_conn_mock_pair me remote net).1 ≡ net.next_pair_id
  unfolding make_conn_mock_pair
  pair_number = refl

  host_done :
      (i : ℕ)
      → me ≢ remote
      → get_elem? net.hosts i ≡ some remote
      → join_host me remote i bytes net ≡ ok (m, r)
      → JoinDone me remote bytes net m r
  unfolding join_host
  host_done i apart found h = elim (Bool-cases (is_connected me (net.store remote).conn_data)) [
    | inl twice ↦
        answer net (join_error already_connected) _ (rw (join_host, twice)) h (known twice refl)
    | inr fresh ↦ elim (Option-cases (net.store remote).join) [
      | inl no_join ↦ absurd (
          let run : join_host me remote i bytes net ≡ panic nil_pointer =
            rw (join_host, fresh, no_join) in
          cc)
      | inr (f, has_join) ↦ elim (Option-cases (f bytes)) [
        | inr (e, objects) ↦
            answer net (join_error (refused e)) _ (rw (join_host, fresh, has_join, objects)) h
              (refuses f e has_join objects refl)
        | inl yes' ↦
            let made = make_conn_mock_pair me remote net in
            answer (record (made.0) { arriving = (i, made.1) ∷ net.arriving }) (joined made.1) _
              (rw (join_host, fresh, has_join, yes')) h
              (subst
                (λ k.
                  JoinDone me remote bytes net
                    (record (made.0) { arriving = (i, made.1) ∷ net.arriving }) (joined k))
                (sym pair_number)
                (accepts f has_join yes' fresh
                  (make_conn_mock_pair-Paired me remote i net apart found)))
      ]
    ]
  ]

  -- A join of two hosts that returns: if it gives a connection, the remote host was listed, had no
  -- connection to the caller, and its function has answered nil; then each of the two has one
  -- connection more, of the next pair and to the other, the remote one will be told, and nothing else
  -- has changed. If it gives an error, that one is true, and nothing has changed.
  pub join_locked-JoinDone :
      me ≢ remote → join_locked me remote bytes net ≡ ok (m, r) → JoinDone me remote bytes net m r
  unfolding join_locked
  join_locked-JoinDone apart h = elim (Option-cases (index_of remote 0 net.hosts)) [
    | inl gone ↦
        answer net (join_error not_found) _ (rw (join_locked, gone)) h
          (absent (index_of-none remote 0 net.hosts gone) refl)
    | inr (i, at) ↦
        let (j, same, found) = index_of-some remote 0 i net.hosts at in
        let run : join_locked me remote bytes net ≡ join_host me remote i bytes net =
          rw (join_locked, at) refl in
        host_done i apart
          (subst (λ k. get_elem? net.hosts k ≡ some remote) {x = j} (omega (arith, same)) found)
          (sym run ∙ h)
  ]
