-- ===== src/MockNetwork/Registry.antt =====
-- Which hosts are connected, and what a new pair of connections changes.
use pnf.Base.{
  ◌≡◌, ◌≢◌, refl, sym, ◌∙◌, ap, subst, ℕ, ◌+◌, ◌<◌, Bool, false, ◌||◌, ◌&&◌, List, [], ◌∷◌, ◌++◌,
  arith, ◌==◌, ==_refl, ne→==,
}
use native.Mathlib.Decide.{ℕ_discrete}
use pnf.MockNetwork.{NetworkMock, HostMock, ConnData, is_connected, make_conn_mock_pair}
use pnf.Base.{◌≤◌, true, some, get_elem?, if◌then◌else◌}

abbrev pub connected : NetworkMock → ℕ → ℕ → Bool
connected net a b = is_connected b (net.store a).conn_data

-- every number in a list of connections is below a bound
abbrev pub AllBelow : ℕ → List ConnData → Type 0
AllBelow n [] = Unit
AllBelow n (c ∷ cs) = (c.pair_id < n) × AllBelow n cs

-- how many connections of a list are to this host
abbrev pub conns_to : ℕ → List ConnData → ℕ
conns_to b [] = 0
conns_to b (c ∷ cs) = (if c.remote_id == b then 1 else 0) + conns_to b cs

-- Connections are in pairs, no host is connected to itself, nor twice to another, and the numbers of
-- the pairs are below the next one.
pub record IsPaired (net : NetworkMock) : Type 0 where
  pub symmetric : (a b : ℕ) → connected net a b ≡ connected net b a
  pub irreflexive : (a : ℕ) → connected net a a ≡ false
  pub old : (a : ℕ) → AllBelow net.next_pair_id (net.store a).conn_data
  pub single : (a b : ℕ) → conns_to b (net.store a).conn_data ≤ 1

is_connected-append :
    (b : ℕ) (cs : List ConnData) (c : ConnData)
    → is_connected b (cs ++ (c ∷ [])) ≡ (is_connected b cs || (c.remote_id == b))
unfolding is_connected
is_connected-append b [] c = ground arith
is_connected-append b (d ∷ cs) c = ground (arith, is_connected-append b cs c)

AllBelow-suc : (n : ℕ) (cs : List ConnData) → AllBelow n cs → AllBelow (n + 1) cs
AllBelow-suc n [] v = tt
AllBelow-suc n (c ∷ cs) v = (omega (arith, v.0), AllBelow-suc n cs v.1)

AllBelow-append :
    (n : ℕ) (cs : List ConnData) (c : ConnData)
    → AllBelow n cs
    → c.pair_id ≡ n
    → AllBelow (n + 1) (cs ++ (c ∷ []))
AllBelow-append n [] c v e = (omega arith, tt)
AllBelow-append n (d ∷ cs) c v e = (omega (arith, v.0), AllBelow-append n cs c v.1 e)

conns_to-append :
    (b : ℕ) (cs : List ConnData) (c : ConnData)
    → conns_to b (cs ++ (c ∷ [])) ≡ conns_to b cs + (if c.remote_id == b then 1 else 0)
conns_to-append b [] c = omega arith
conns_to-append b (d ∷ cs) c = omega (arith, conns_to-append b cs c)

conns_to-none : (b : ℕ) (cs : List ConnData) → is_connected b cs ≡ false → conns_to b cs ≡ 0
unfolding is_connected
conns_to-none b [] h = refl
conns_to-none b (c ∷ cs) h = ground (arith, conns_to-none b cs)

one_more :
    (b : ℕ) (cs : List ConnData) (c : ConnData)
    → conns_to b cs ≤ 1
    → is_connected c.remote_id cs ≡ false
    → conns_to b (cs ++ (c ∷ [])) ≤ 1
one_more b cs c h fresh = elim (ℕ_discrete c.remote_id b) [
  | yes e ↦
      let none_yet : conns_to b cs ≡ 0 =
        conns_to-none b cs (subst (λ k. is_connected k cs ≡ false) e fresh) in
      omega (arith, conns_to-append b cs c, at_most (c.remote_id == b))
  | no n ↦ omega (arith, conns_to-append b cs c, other n)
]
  where
    at_most : (t : Bool) → (if t then 1 else 0) ≤ 1
    at_most true = omega arith
    at_most false = omega arith

    other : c.remote_id ≢ b → ◌≡◌ {A = ℕ} (if c.remote_id == b then 1 else 0) 0
    other n = rw (ne→== c.remote_id b n) refl

-- What a join that succeeds has changed: the two hosts have a connection each, of the next pair, and
-- it is on its way to the remote one.
pub record Paired (me remote : ℕ) (net m : NetworkMock) : Type 0 where
  pub apart : me ≢ remote
  pub at_me :
      (m.store me).conn_data
      ≡ (net.store me).conn_data ++ (record { pair_id = net.next_pair_id; remote_id = remote } ∷ [])
  pub at_remote :
      (m.store remote).conn_data
      ≡ (net.store remote).conn_data ++ (record { pair_id = net.next_pair_id; remote_id = me } ∷ [])
  pub others : (q : ℕ) → me ≢ q → remote ≢ q → m.store q ≡ net.store q
  pub next_number : m.next_pair_id ≡ net.next_pair_id + 1
  pub same_hosts : m.hosts ≡ net.hosts
  pub same_ids : m.host_id ≡ net.host_id
  pub on_its_way :
      (i : ℕ) × (get_elem? net.hosts i ≡ some remote)
      × (m.arriving ≡ (i, net.next_pair_id) ∷ net.arriving)

pub make_conn_mock_pair-Paired :
    (me remote i : ℕ) (net : NetworkMock)
    → me ≢ remote
    → get_elem? net.hosts i ≡ some remote
    → Paired me remote net (record ((make_conn_mock_pair me remote net).0) {
      arriving = (i, (make_conn_mock_pair me remote net).1) ∷ net.arriving;
    })
unfolding make_conn_mock_pair
make_conn_mock_pair-Paired me remote i net apart found = record {
  apart = apart;
  at_me = rw (ne→== remote me (λ e. apart (sym e)), ==_refl me);
  at_remote = rw (==_refl remote, ne→== me remote apart);
  others = λ q a b. rw (ne→== remote q b, ne→== me q a) refl;
  next_number = refl;
  same_hosts = refl;
  same_ids = refl;
  on_its_way = (i, found, refl);
}

module _ (me remote : ℕ) (net m : NetworkMock) (pd : Paired me remote net m) where
  conns_other : (q : ℕ) → me ≢ q → remote ≢ q → (m.store q).conn_data ≡ (net.store q).conn_data
  conns_other q a b = ap (λ (h : HostMock). h.conn_data) (pd.others q a b)

  -- Exactly the two hosts are connected now that were not before.
  pub connected_after :
      (a b : ℕ)
      → connected m a b
        ≡ (connected net a b || ((me == a && remote == b) || (remote == a && me == b)))
  connected_after a b = elim (ℕ_discrete me a) [
    | yes e ↦
        subst
          (λ q.
            connected m q b
            ≡ (connected net q b || ((me == q && remote == b) || (remote == q && me == b))))
          e
          (ap (is_connected b) pd.at_me
            ∙ is_connected-append b (net.store me).conn_data _
            ∙ ground (arith, pd.apart))
    | no n ↦ elim (ℕ_discrete remote a) [
      | yes e ↦
          subst
            (λ q.
              connected m q b
              ≡ (connected net q b || ((me == q && remote == b) || (remote == q && me == b))))
            e
            (ap (is_connected b) pd.at_remote
              ∙ is_connected-append b (net.store remote).conn_data _
              ∙ ground (arith, pd.apart))
      | no k ↦ ap (is_connected b) (conns_other a n k) ∙ ground arith
    ]
  ]

  pub Paired-IsPaired : IsPaired net → connected net remote me ≡ false → IsPaired m
  Paired-IsPaired p fresh = record {
    symmetric =
        λ a b. connected_after a b ∙ ground (arith, p.symmetric a b) ∙ sym (connected_after b a);
    irreflexive = λ a. connected_after a a ∙ ground (arith, p.irreflexive a, pd.apart);
    old = λ a. subst (λ k. AllBelow k (m.store a).conn_data) (sym pd.next_number) (by_host a);
    single = λ a b. elim (ℕ_discrete me a) [
      | yes e ↦
          subst (λ q. conns_to b (m.store q).conn_data ≤ 1) e
            (subst (λ cs. conns_to b cs ≤ 1) (sym pd.at_me)
              (one_more b (net.store me).conn_data _ (p.single me b)
                (p.symmetric me remote ∙ fresh)))
      | no n ↦ elim (ℕ_discrete remote a) [
        | yes e ↦
            subst (λ q. conns_to b (m.store q).conn_data ≤ 1) e
              (subst (λ cs. conns_to b cs ≤ 1) (sym pd.at_remote)
                (one_more b (net.store remote).conn_data _ (p.single remote b) fresh))
        | no k ↦ subst (λ cs. conns_to b cs ≤ 1) (sym (conns_other a n k)) (p.single a b)
      ]
    ];
  }
    where
      by_host : (a : ℕ) → AllBelow (net.next_pair_id + 1) (m.store a).conn_data
      by_host a = elim (ℕ_discrete me a) [
        | yes e ↦
            subst (λ q. AllBelow (net.next_pair_id + 1) (m.store q).conn_data) e
              (subst (AllBelow (net.next_pair_id + 1)) (sym pd.at_me)
                (AllBelow-append net.next_pair_id (net.store me).conn_data _ (p.old me) refl))
        | no n ↦ elim (ℕ_discrete remote a) [
          | yes e ↦
              subst (λ q. AllBelow (net.next_pair_id + 1) (m.store q).conn_data) e
                (subst (AllBelow (net.next_pair_id + 1)) (sym pd.at_remote) (
                  AllBelow-append net.next_pair_id (net.store remote).conn_data _ (p.old remote)
                    refl))
          | no k ↦
              subst (AllBelow (net.next_pair_id + 1)) (sym (conns_other a n k))
                (AllBelow-suc net.next_pair_id (net.store a).conn_data (p.old a))
        ]
      ]
