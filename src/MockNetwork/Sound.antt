-- ===== src/MockNetwork/Sound.antt =====
-- The invariant of a mock network, and the networks that the methods make.
use pnf.Base.{
  get_elem?, ◌++◌, ◌==◌, some, false, inl, inr, ◌≡◌, ◌≢◌, refl, sym, ◌∙◌, ap, subst, ℕ, ◌+◌, ◌≤◌,
  ◌<◌, true, Option, none, List, [], ◌∷◌, arith, ==_refl, ne→==, Option-cases,
}
use native.Mathlib.Decide.{ℕ_discrete}
use pnf.Base.Slices.{swap_remove, All, All-append, All-swap_remove}
use pnf.Base.Outcome.{ok, ok-injective, panic, index_out_of_range}
use pnf.TcpConn.{Bytes}
use pnf.MockNetwork.{
  NetworkMock, HostMock, PingResult, Joined, to_itself, update, is_connected, announce, new_host,
  new_host_mock, host, check_join, join_locked, unlist, index_of,
}
use pnf.MockNetwork.Registry.{connected, conns_to, IsPaired, Paired, Paired-IsPaired}
use pnf.MockNetwork.Joins.{JoinDone, accepts, join_locked-JoinDone}
use pnf.MockNetwork.Crossing.{All-get_elem?}

-- The invariant: connections are in pairs, and a number that no host has yet has no connection.
pub record IsSound (net : NetworkMock) : Type 0 where
  pub paired : IsPaired net
  pub unused : (a : ℕ) → net.host_id ≤ a → (net.store a).conn_data ≡ []
  pub registered : All (λ x. x < net.host_id) net.hosts

-- the zero `NetworkMock`
abbrev pub no_hosts : NetworkMock
no_hosts = record {
  hosts = [];
  host_id = 0;
  next_pair_id = 0;
  store = λ i. new_host;
  arriving = [];
}

-- The networks that the methods make, which run at the same time and wait for the mutex. `waiting` has
-- the joins that have passed the test of their own connections: the caller and the remote host.
pub data Reach : NetworkMock → List (ℕ × ℕ) → Type 0 where
  started : Reach no_hosts []
  created :
      (n : NetworkMock) (waiting : List (ℕ × ℕ))
      → Reach n waiting
      → Reach (new_host_mock n).0 waiting
  hosting :
      (n : NetworkMock) (waiting : List (ℕ × ℕ)) (id : ℕ) (f : Option (Bytes → PingResult))
      (g : Option (Bytes → Option Bytes))
      → Reach n waiting
      → Reach (host id f g n) waiting
  checking :
      (n : NetworkMock) (waiting : List (ℕ × ℕ)) (me remote : ℕ)
      → me < n.host_id
      → check_join me (some remote) n ≡ none
      → Reach n waiting
      → Reach n ((me, remote) ∷ waiting)
  joining :
      (n m : NetworkMock) (before after : List (ℕ × ℕ)) (me remote : ℕ) (bytes : Bytes) (r : Joined)
      → join_locked me remote bytes n ≡ ok (m, r)
      → Reach n (before ++ ((me, remote) ∷ after))
      → Reach m (before ++ after)
  announcing :
      (n m : NetworkMock) (waiting before after : List (ℕ × ℕ)) (i pair : ℕ)
      → n.arriving ≡ before ++ ((i, pair) ∷ after)
      → announce i pair (record n { arriving = before ++ after }) ≡ ok m
      → Reach n waiting
      → Reach m waiting
  unlisting :
      (n : NetworkMock) (waiting : List (ℕ × ℕ)) (id : ℕ)
      → Reach n waiting
      → Reach (unlist id n) waiting

-- a join that waits is of two hosts, and its caller has been made
abbrev pub MayJoin : ℕ → ℕ × ℕ → Type 0
MayJoin made pair = (pair.0 < made) × (pair.0 ≢ pair.1)

MayJoin-later : (h k : ℕ) (xs : List (ℕ × ℕ)) → h ≤ k → All (MayJoin h) xs → All (MayJoin k) xs
MayJoin-later h k [] le v = tt
MayJoin-later h k (x ∷ xs) le v = ((omega (arith, v.0.0), v.0.1), MayJoin-later h k xs le v.1)

All-middle :
    (P : ℕ × ℕ → Type 0) (xs : List (ℕ × ℕ)) (x : ℕ × ℕ) (ys : List (ℕ × ℕ))
    → All P (xs ++ (x ∷ ys))
    → P x × All P (xs ++ ys)
All-middle P [] x ys v = v
All-middle P (z ∷ xs) x ys v = let (a, b) = All-middle P xs x ys v.1 in (a, (v.0, b))

All-later : (h k : ℕ) (xs : List ℕ) → h ≤ k → All (λ x. x < h) xs → All (λ x. x < k) xs
All-later h k [] le v = tt
All-later h k (x ∷ xs) le v = (omega (arith, v.0), All-later h k xs le v.1)

-- A method that leaves the connections alone.
same_conns-IsSound :
    (n m : NetworkMock)
    → ((a : ℕ) → (m.store a).conn_data ≡ (n.store a).conn_data)
    → m.next_pair_id ≡ n.next_pair_id
    → n.host_id ≤ m.host_id
    → All (λ x. x < m.host_id) m.hosts
    → IsSound n
    → IsSound m
same_conns-IsSound n m same e le known s = record {
  paired = record {
    single = λ a b. subst (λ cs. conns_to b cs ≤ 1) (sym (same a)) (s.paired.single a b);
    symmetric = λ a b.
        ap (is_connected b) (same a) ∙ s.paired.symmetric a b ∙ sym (ap (is_connected a) (same b));
    irreflexive = λ a. ap (is_connected a) (same a) ∙ s.paired.irreflexive a;
    old = λ a. rw (e, same a) (s.paired.old a);
  };
  unused = λ a h. same a ∙ s.unused a (omega arith);
  registered = known;
}

created-IsSound : (n : NetworkMock) → IsSound n → IsSound (new_host_mock n).0
unfolding new_host_mock
created-IsSound n s =
    same_conns-IsSound n (new_host_mock n).0
      (λ a. elim (ℕ_discrete n.host_id a) [
        | yes e ↦
            subst (λ q. (update n.store n.host_id new_host q).conn_data ≡ (n.store q).conn_data) e
              (rw (==_refl n.host_id) (sym (s.unused n.host_id (omega arith))))
        | no ne ↦ rw (ne→== n.host_id a ne)
      ])
      refl (omega arith)
      (All-append (λ x. x < n.host_id + 1) n.hosts n.host_id
        (All-later n.host_id (n.host_id + 1) n.hosts (omega arith) s.registered) (omega arith))
      s

host_conns :
    (n : NetworkMock) (id : ℕ) (f : Option (Bytes → PingResult)) (g : Option (Bytes → Option Bytes))
    (a : ℕ)
    → ((host id f g n).store a).conn_data ≡ (n.store a).conn_data
unfolding host
host_conns n id f g a = elim (ℕ_discrete id a) [
  | yes e ↦
      subst (λ q. ((host id f g n).store q).conn_data ≡ (n.store q).conn_data) e (rw (==_refl id))
  | no ne ↦ rw (ne→== id a ne)
]

hosting-IsSound :
    (n : NetworkMock) (id : ℕ) (f : Option (Bytes → PingResult)) (g : Option (Bytes → Option Bytes))
    → IsSound n
    → IsSound (host id f g n)
unfolding host
hosting-IsSound n id f g s =
    same_conns-IsSound n (host id f g n) (host_conns n id f g) refl (omega arith) s.registered s

added-IsSound :
    (n m : NetworkMock) (me remote : ℕ)
    → me < n.host_id
    → connected n remote me ≡ false
    → Paired me remote n m
    → IsSound n
    → IsSound m
added-IsSound n m me remote a fresh pd s =
    let (i, found, later) = pd.on_its_way in
    let b : remote < n.host_id =
      All-get_elem? (λ x. x < n.host_id) n.hosts i remote s.registered found in
    record {
      paired = Paired-IsPaired me remote n m pd s.paired fresh;
      unused = λ q h.
          ap (λ (k : HostMock). k.conn_data)
            (pd.others q (λ e. absurd (omega (arith, pd.same_ids)))
              (λ e. absurd (omega (arith, pd.same_ids))))
          ∙ s.unused q (omega (arith, pd.same_ids));
      registered =
          subst (λ k. All (λ x. x < k) m.hosts) (sym pd.same_ids)
            (subst (All (λ x. x < n.host_id)) (sym pd.same_hosts) s.registered);
    }

joined-IsSound :
    (me remote : ℕ) (bytes : Bytes) (n m : NetworkMock) (r : Joined)
    → JoinDone me remote bytes n m r
    → me < n.host_id
    → IsSound n
    → IsSound m × (m.host_id ≡ n.host_id)
joined-IsSound me remote bytes n m _ (JoinDone.absent a e) lt s =
    (subst IsSound (sym e) s, ap (λ (k : NetworkMock). k.host_id) e)
joined-IsSound me remote bytes n m _ (JoinDone.known a e) lt s =
    (subst IsSound (sym e) s, ap (λ (k : NetworkMock). k.host_id) e)
joined-IsSound me remote bytes n m _ (JoinDone.refuses f b c d e) lt s =
    (subst IsSound (sym e) s, ap (λ (k : NetworkMock). k.host_id) e)
joined-IsSound me remote bytes n m _ (accepts f a b fresh pd) lt s =
    (added-IsSound n m me remote lt fresh pd s, pd.same_ids)

announced-IsSound :
    (n m : NetworkMock) (i pair : ℕ)
    → announce i pair n ≡ ok m
    → IsSound n
    → IsSound m × (m.host_id ≡ n.host_id)
unfolding announce
announced-IsSound n m i pair h s = elim (Option-cases (get_elem? n.hosts i)) [
  | inl gone ↦
      absurd
        (let run : announce i pair n ≡ panic index_out_of_range = rw (announce, gone) refl in cc)
  | inr (id, found) ↦
      let told : NetworkMock = record n {
        store =
            update n.store id
              (record (n.store id) { new_conns = (n.store id).new_conns ++ (pair ∷ []) });
      } in
      let run : announce i pair n ≡ ok told = rw (announce, found) refl in
      subst (λ k. IsSound k × (k.host_id ≡ n.host_id)) (ok-injective told m (sym run ∙ h))
        (
          same_conns-IsSound n told
              (λ a. elim (ℕ_discrete id a) [
                | yes e ↦
                    subst (λ q. (told.store q).conn_data ≡ (n.store q).conn_data) e
                      (rw (==_refl id))
                | no ne ↦ rw (ne→== id a ne)
              ])
              refl (omega arith) s.registered s,
          refl,
        )
]

unlist-IsSound :
    (n : NetworkMock) (id : ℕ)
    → IsSound n
    → IsSound (unlist id n) × ((unlist id n).host_id ≡ n.host_id)
unfolding unlist
unlist-IsSound n id s = elim (Option-cases (index_of id 0 n.hosts)) [
  | inl missing ↦ rw (unlist, missing) (s, refl)
  | inr (i, found) ↦
      rw (unlist, found)
        (
          same_conns-IsSound n (record n { hosts = swap_remove n.hosts i }) (λ a. refl) refl
              (omega arith) (All-swap_remove (λ x. x < n.host_id) n.hosts i s.registered) s,
          refl,
        )
]

no_hosts-IsSound : IsSound no_hosts
unfolding is_connected
no_hosts-IsSound = record {
  paired = record {
    symmetric = λ a b. refl;
    irreflexive = λ a. refl;
    old = λ a. tt;
    single = λ a b. omega arith;
  };
  unused = λ a h. refl;
  registered = tt;
}

check_join-apart :
    (me remote : ℕ) (n : NetworkMock) → check_join me (some remote) n ≡ none → me ≢ remote
unfolding check_join
check_join-apart me remote n h e =
    let self : (remote == me) ≡ true = subst (λ k. (k == me) ≡ true) e (==_refl me) in
    let run : check_join me (some remote) n ≡ some to_itself = rw (check_join, self) refl in cc

Reach-both :
    (n : NetworkMock) (waiting : List (ℕ × ℕ))
    → Reach n waiting
    → IsSound n × All (MayJoin n.host_id) waiting
unfolding new_host_mock host
Reach-both _ _ started = (no_hosts-IsSound, tt)
Reach-both _ _ (created n waiting r) =
    let (s, v) = Reach-both n waiting r in
    (created-IsSound n s, MayJoin-later n.host_id (n.host_id + 1) waiting (omega arith) v)
Reach-both _ _ (hosting n waiting id f g r) =
    let (s, v) = Reach-both n waiting r in (hosting-IsSound n id f g s, v)
Reach-both _ _ (checking n waiting me remote lt fine r) =
    let (s, v) = Reach-both n waiting r in (s, ((lt, check_join-apart me remote n fine), v))
Reach-both _ _ (joining n m before after me remote bytes r run reach) =
    let (s, v) = Reach-both n (before ++ ((me, remote) ∷ after)) reach in
    let (here, others) = All-middle (MayJoin n.host_id) before (me, remote) after v in
    let (s', same) =
      joined-IsSound me remote bytes n m r (join_locked-JoinDone me remote bytes n m r here.1 run)
        here.0 s in
    (s', subst (λ k. All (MayJoin k) (before ++ after)) (sym same) others)
Reach-both _ _ (announcing n m waiting before after i pair at run reach) =
    let (s, v) = Reach-both n waiting reach in
    let (s', same) =
      announced-IsSound (record n { arriving = before ++ after }) m i pair run
        (same_conns-IsSound n (record n { arriving = before ++ after }) (λ a. refl) refl
          (omega arith) s.registered s) in
    (s', subst (λ k. All (MayJoin k) waiting) (sym same) v)
Reach-both _ _ (unlisting n waiting id reach) =
    let (s, v) = Reach-both n waiting reach in
    let (s', same) = unlist-IsSound n id s in
    (s', subst (λ k. All (MayJoin k) waiting) (sym same) v)

-- In every network that the methods make, called at the same time and in any order: two hosts are
-- connected both ways or not at all, none is connected to itself or twice to another, and the numbers
-- of the pairs are below the next one.
pub Reach-IsSound : (n : NetworkMock) (waiting : List (ℕ × ℕ)) → Reach n waiting → IsSound n
Reach-IsSound n waiting r = (Reach-both n waiting r).0
